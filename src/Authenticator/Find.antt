-- ===== src/Authenticator/Find.antt =====
-- What the tree stands for: the list of its users. A search in the tree is a search in the list.
use Prim.Native.Nat.Ordering.{lt, eq, gt}
use Prim.Native.Nat.{Ordering}
use hev_socks5_core.Base.{
  ◌≡◌, refl, ◌∙◌, sym, subst, Bool, ◌⊎◌, inl, inr, false, Option, none, some, List, [], ◌∷◌, ◌++◌,
  Bytes, arith, Bool-cases, bytes_eq, bytes_eq_refl, eq_of_bytes_eq, if◌then◌else◌,
}
use hev_socks5_core.User.{User, compare_names}
use hev_socks5_core.User.Order.{compare_names_refl, eq_of_compare_names, gt_of_lt, gt_trans}
use hev_socks5_core.Authenticator.{Tree, leaf, node, inorder, get}
use hev_socks5_core.Authenticator.Sorted.{
  IsSearchTree, Before, After, All-imp, Falling-left, Falling-right, Falling-Before,
}

-- the user of that name, in a list without any order
unfoldable pub find : Bytes → List User → Option User
find name [] = none
find name (u ∷ us) = if bytes_eq u.name name then some u else find name us

pub Ordering-cases : (o : Ordering) → (o ≡ lt) ⊎ ((o ≡ eq) ⊎ (o ≡ gt))
Ordering-cases lt = inl refl
Ordering-cases eq = inr (inl refl)
Ordering-cases gt = inr (inr refl)

pub bytes_ne_of_gt : (a b : Bytes) → compare_names a b ≡ gt → bytes_eq a b ≡ false
bytes_ne_of_gt a b h = elim (Bool-cases (bytes_eq a b)) [
  | inl e ↦ ground (arith, eq_of_bytes_eq a b e, compare_names_refl b)
  | inr e ↦ e
]

pub bytes_ne_of_lt : (a b : Bytes) → compare_names a b ≡ gt → bytes_eq b a ≡ false
bytes_ne_of_lt a b h = elim (Bool-cases (bytes_eq b a)) [
  | inl e ↦ ground (arith, eq_of_bytes_eq b a e, compare_names_refl b)
  | inr e ↦ e
]

pub find-Before :
    (name : Bytes) (us vs : List User) → Before name us → find name (us ++ vs) ≡ find name vs
unfolding find
find-Before name [] vs h = refl
find-Before name (u ∷ us) vs h = rw (bytes_ne_of_gt u.name name h.0) (find-Before name us vs h.1)

pub find-After : (name : Bytes) (vs : List User) → After name vs → find name vs ≡ none
unfolding find
find-After name [] h = refl
find-After name (v ∷ vs) h = rw (bytes_ne_of_lt name v.name h.0) (find-After name vs h.1)

pub find-append-After :
    (name : Bytes) (us vs : List User) → After name vs → find name (us ++ vs) ≡ find name us
unfolding find
find-append-After name [] vs h = find-After name vs h
find-append-After name (u ∷ us) vs h = ground (arith, find-append-After name us vs h)

-- what stands before or after a name's place, seen from the user at a node
pub Before-node :
    (name : Bytes) (us : List User) (u : User)
    → compare_names u.name name ≡ gt
    → Before u.name us
    → Before name us
Before-node name us u h b = All-imp _ _ (λ v e. gt_trans v.name u.name name e h) us b

pub After-node :
    (name : Bytes) (vs : List User) (u : User)
    → compare_names u.name name ≡ lt
    → After u.name vs
    → After name vs
After-node name vs u h a =
    All-imp _ _ (λ v e. gt_trans name u.name v.name (gt_of_lt u.name name h) e) vs a

module _ (red : Bool) (l : Tree) (u : User) (r : Tree) (name : Bytes)
    (h : IsSearchTree (node red l u r)) where
  below : After u.name (inorder r) × IsSearchTree r
  below = Falling-right (inorder l) (u ∷ inorder r) h

  before : Before u.name (inorder l)
  before = Falling-Before (inorder l) u (inorder r) h

  -- where each branch of a search leads, in the list
  pub find_left :
      compare_names u.name name ≡ lt
      → find name (inorder l ++ (u ∷ inorder r)) ≡ find name (inorder l)
  find_left e =
      find-append-After name (inorder l) (u ∷ inorder r)
        (gt_of_lt u.name name e, After-node name (inorder r) u e below.0)

  pub find_here : compare_names u.name name ≡ eq → find name (inorder l ++ (u ∷ inorder r)) ≡ some u
  unfolding find
  find_here e =
      let same = eq_of_compare_names u.name name e in
      find-Before name (inorder l) (u ∷ inorder r) (subst (λ n. Before n (inorder l)) same before)
      ∙ rw (same, bytes_eq_refl)

  pub find_right :
      compare_names u.name name ≡ gt
      → find name (inorder l ++ (u ∷ inorder r)) ≡ find name (inorder r)
  unfolding find
  find_right e =
      find-Before name (inorder l) (u ∷ inorder r) (Before-node name (inorder l) u e before)
      ∙ rw (bytes_ne_of_gt u.name name e)

-- In a search tree, hev_socks5_authenticator_get finds what a walk over all users from left to right
-- finds: the first user of that name, or none.
pub get-find : (t : Tree) (name : Bytes) → IsSearchTree t → get t name ≡ find name (inorder t)
unfolding get
get-find leaf name h = unfold find in refl
get-find (node red l u r) name h = elim (Ordering-cases (compare_names u.name name)) [
  | inl e ↦
      rw (e, get)
        (get-find l name (Falling-left (inorder l) (u ∷ inorder r) h)
          ∙ sym (find_left red l u r name h e))
  | inr (inl e) ↦ rw (e, get) (sym (find_here red l u r name h e))
  | inr (inr e) ↦
      rw (e, get)
        (get-find r name (Falling-right (inorder l) (u ∷ inorder r) h).1
          ∙ sym (find_right red l u r name h e))
]
