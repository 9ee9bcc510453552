-- ===== src/Authenticator/Link.antt =====
-- The walk of hev_socks5_authenticator_add: whether it links the user, and where.
use mathlib.Core.List.{append_assoc}
use mathlib.Core.Bool.{Bool}
use Prim.Native.Nat.Ordering.{lt, eq, gt}
use hev_socks5_core.Base.{
  ◌≡◌, ◌≢◌, ◌↔◌, refl, sym, ap, true, none, some, List, [], ◌∷◌, ◌++◌, inl, inr, arith,
}
use hev_socks5_core.User.{User, compare_names}
use hev_socks5_core.User.Order.{gt_of_lt}
use hev_socks5_core.Authenticator.{Tree, leaf, node, inorder, get, link}
use hev_socks5_core.Authenticator.Sorted.{
  IsSearchTree, Before, After, All-append, Falling-left, Falling-right, Falling-Before,
}
use hev_socks5_core.Authenticator.Find.{Ordering-cases, Before-node, After-node}

-- `l'` is `l` with the user `u` at its place
pub record Placed (u : User) (l l' : List User) : Type 0 where
  pub us : List User
  pub vs : List User
  pub old : l ≡ us ++ vs
  pub new : l' ≡ us ++ (u ∷ vs)
  pub before : Before u.name us
  pub after : After u.name vs

-- The walk of hev_socks5_authenticator_add fails exactly where a user of the name is found.
pub link-get : (t : Tree) (u : User) → (link t u ≡ none) ↔ (get t u.name ≢ none)
unfolding link get
link-get leaf u = ground arith
link-get (node red l v r) u = ground (arith, link-get l u, link-get r u)

Placed-left :
    (u w : User) (l l' r : List User)
    → After u.name (w ∷ r)
    → Placed u l l'
    → Placed u (l ++ (w ∷ r)) (l' ++ (w ∷ r))
Placed-left u w l l' r a p = record {
  us = p.us;
  vs = p.vs ++ (w ∷ r);
  old = rw (p.old) (append_assoc p.us p.vs (w ∷ r));
  new = rw (p.new) (append_assoc p.us (u ∷ p.vs) (w ∷ r));
  before = p.before;
  after = All-append _ p.vs (w ∷ r) p.after a;
}

Placed-right :
    (u w : User) (l r r' : List User)
    → Before u.name l
    → compare_names w.name u.name ≡ gt
    → Placed u r r'
    → Placed u (l ++ (w ∷ r)) (l ++ (w ∷ r'))
Placed-right u w l r r' b g p = record {
  us = l ++ (w ∷ p.us);
  vs = p.vs;
  old = rw (p.old) (sym (append_assoc l (w ∷ p.us) p.vs));
  new = rw (p.new) (sym (append_assoc l (w ∷ p.us) (u ∷ p.vs)));
  before = All-append _ l (w ∷ p.us) b (g, p.before);
  after = p.after;
}

module _ (red : Bool) (l : Tree) (v : User) (r : Tree) (u : User) (t' : Tree)
    (e : link (node red l v r) u ≡ some t') where
  link_left :
      compare_names v.name u.name ≡ lt → (l' : Tree) × (link l u ≡ some l') × (t' ≡ node red l' v r)
  unfolding link
  link_left c = ground arith

  link_right :
      compare_names v.name u.name ≡ gt → (r' : Tree) × (link r u ≡ some r') × (t' ≡ node red l v r')
  unfolding link
  link_right c = ground arith

  link_eq : compare_names v.name u.name ≡ eq → ⊥
  unfolding link
  link_eq c = ground arith

-- Otherwise it puts the user at its place.
pub link-Placed :
    (t : Tree) (u : User) (t' : Tree)
    → IsSearchTree t
    → link t u ≡ some t'
    → Placed u (inorder t) (inorder t')
unfolding link
link-Placed leaf u t' h e =
    let one : t' ≡ node true leaf u leaf = ground arith in
    record { us = []; vs = []; old = refl; new = ap inorder one; before = tt; after = tt }
link-Placed (node red l v r) u t' h e =
    let below = Falling-right (inorder l) (v ∷ inorder r) h in
    let before = Falling-Before (inorder l) v (inorder r) h in
    elim (Ordering-cases (compare_names v.name u.name)) [
      | inl c ↦
          let (l', el, et) = link_left red l v r u t' e c in
          rw et (
            Placed-left u v (inorder l) (inorder l') (inorder r)
              (gt_of_lt v.name u.name c, After-node u.name (inorder r) v c below.0)
              (link-Placed l u l' (Falling-left (inorder l) (v ∷ inorder r) h) el))
      | inr (inl c) ↦ absurd (link_eq red l v r u t' e c)
      | inr (inr c) ↦
          let (r', er, et) = link_right red l v r u t' e c in
          rw et (
            Placed-right u v (inorder l) (inorder r) (inorder r')
              (Before-node u.name (inorder l) v c before) c (link-Placed r u r' below.1 er))
    ]
