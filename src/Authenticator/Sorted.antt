-- ===== src/Authenticator/Sorted.antt =====
-- The invariant of the authenticator's tree: from left to right the names strictly fall.
use Prim.Native.Nat.Ordering.{gt}
use hev_socks5_core.Base.{◌≡◌, List, [], ◌∷◌, ◌++◌, Bytes}
use hev_socks5_core.User.{User, compare_names}
use hev_socks5_core.User.Order.{gt_trans}
use hev_socks5_core.Authenticator.{Tree, inorder, All}

abbrev pub Falling : List User → Type 0
Falling [] = Unit
Falling (u ∷ us) = All (λ v. compare_names u.name v.name ≡ gt) us × Falling us

abbrev pub IsSearchTree : Tree → Type 0
IsSearchTree t = Falling (inorder t)

module _ (P : User → Type 0) where
  pub All-append : (us vs : List User) → All P us → All P vs → All P (us ++ vs)
  All-append [] vs h k = k
  All-append (u ∷ us) vs h k = (h.0, All-append us vs h.1 k)

  pub All-left : (us vs : List User) → All P (us ++ vs) → All P us
  All-left [] vs h = tt
  All-left (u ∷ us) vs h = (h.0, All-left us vs h.1)

  pub All-right : (us vs : List User) → All P (us ++ vs) → All P vs
  All-right [] vs h = h
  All-right (u ∷ us) vs h = All-right us vs h.1

  pub All-imp :
      (Q : User → Type 0) → ((u : User) → P u → Q u) → (us : List User) → All P us → All Q us
  All-imp Q f [] h = tt
  All-imp Q f (u ∷ us) h = (f u h.0, All-imp Q f us h.1)

abbrev pub Before : Bytes → List User → Type 0
Before name us = All (λ v. compare_names v.name name ≡ gt) us

abbrev pub After : Bytes → List User → Type 0
After name us = All (λ v. compare_names name v.name ≡ gt) us

pub Falling-left : (us vs : List User) → Falling (us ++ vs) → Falling us
Falling-left [] vs h = tt
Falling-left (u ∷ us) vs h = (All-left _ us vs h.0, Falling-left us vs h.1)

pub Falling-right : (us vs : List User) → Falling (us ++ vs) → Falling vs
Falling-right [] vs h = h
Falling-right (u ∷ us) vs h = Falling-right us vs h.1

pub Falling-Before :
    (us : List User) (u : User) (vs : List User) → Falling (us ++ (u ∷ vs)) → Before u.name us
Falling-Before [] u vs h = tt
Falling-Before (v ∷ us) u vs h = ((All-right _ us (u ∷ vs) h.0).0, Falling-Before us u vs h.1)

-- two falling lists round a name that stands between them
pub Falling-append :
    (us : List User) (u : User) (vs : List User)
    → Falling us
    → Falling vs
    → Before u.name us
    → After u.name vs
    → Falling (us ++ (u ∷ vs))
Falling-append [] u vs f g b a = (a, g)
Falling-append (x ∷ us) u vs f g b a = (
  All-append _ us (u ∷ vs) f.0 (b.0, All-imp _ _ (λ v h. gt_trans x.name u.name v.name b.0 h) vs a),
  Falling-append us u vs f.1 g b.1 a,
)

pub Falling-drop :
    (us : List User) (u : User) (vs : List User) → Falling (us ++ (u ∷ vs)) → Falling (us ++ vs)
Falling-drop [] u vs h = h.1
Falling-drop (x ∷ us) u vs h = (
  All-append _ us vs (All-left _ us (u ∷ vs) h.0) (All-right _ us (u ∷ vs) h.0).1,
  Falling-drop us u vs h.1,
)
