-- ===== src/Authenticator.antt =====
-- src/hev-socks5-authenticator.c: users in a red-black tree by their names. The walks over the
-- tree are here; what they call of hev-rbtree.c is the interface `RbTree`.
pub mod Sorted
pub mod Find
pub mod Clear
pub mod Life
pub mod Link
pub mod Change
use Prim.Native.Nat.Ordering.{lt, eq, gt}
use hev_socks5_core.Base.{
  ℕ, zero, suc, ◌≡◌, ◌≢◌, Bool, true, false, Option, none, some, List, [], ◌∷◌, ◌++◌, Bytes, ℤ, pos,
  minus_one, is_neg, not, if◌then◌else◌,
}
use hev_socks5_core.Host.{Host, Trace, M, pure, ◌>>=◌, ◌>>◌, emit, allocated, freed, object_unref}
use hev_socks5_core.User.{User, compare_names}

-- A node is embedded in its user; `red` is its color.
pub data Tree : Type 0 where
  leaf : Tree
  node : Bool → Tree → User → Tree → Tree

-- the users from left to right
abbrev pub inorder : Tree → List User
inorder leaf = []
inorder (node red l u r) = inorder l ++ (u ∷ inorder r)

abbrev pub All {ℓ} : (User → Type ℓ) → List User → Type ℓ
All P [] = Unit
All P (u ∷ us) = P u × All P us

-- What the authenticator uses of hev-rbtree.c. A node is named by its user.
pub record RbTree : Type 0 where
  -- hev_rbtree_insert_color moves no node past another one
  pub insert_color : Tree → User → Tree
  pub inorder-insert_color : (t : Tree) (u : User) → inorder (insert_color t u) ≡ inorder t
  -- hev_rbtree_erase takes one node out, and keeps the order of the others
  pub erase : Tree → User → Tree
  pub inorder-erase :
      (t : Tree) (u : User) (us vs : List User)
      → inorder t ≡ us ++ (u ∷ vs)
      → All (λ v. v ≢ u) us
      → inorder (erase t u) ≡ us ++ vs
  -- hev_rbtree_first returns the leftmost node
  pub first : Tree → Option User
  pub first-nil : (t : Tree) → inorder t ≡ [] → first t ≡ none
  pub first-cons : (t : Tree) (u : User) (us : List User) → inorder t ≡ u ∷ us → first t ≡ some u

-- hev_socks5_authenticator_get; a smaller name at the node leads to the left
unfoldable pub get : Tree → Bytes → Option User
get leaf name = none
get (node red l this r) name = elim (compare_names this.name name) [
  | lt ↦ get l name
  | gt ↦ get r name
  | eq ↦ some this
]

-- the walk of hev_socks5_authenticator_add, with hev_rbtree_node_link at its end; `none` is the
-- return of -1
unfoldable pub link : Tree → User → Option Tree
link leaf user = some (node true leaf user leaf)
link (node red l this r) user = elim (compare_names this.name user.name) [
  | lt ↦ elim (link l user) [ none ↦ none | some l' ↦ some (node red l' this r) ]
  | gt ↦ elim (link r user) [ none ↦ none | some r' ↦ some (node red l this r') ]
  | eq ↦ none
]

module _ (rb : RbTree) where
  -- hev_socks5_authenticator_add
  unfoldable pub add : User → Tree → ℤ × Tree
  add user t = elim (link t user) [
    | none ↦ (minus_one, t)
    | some t' ↦ (pos 0, rb.insert_color t' user)
  ]

  -- hev_socks5_authenticator_del; its walk is that of hev_socks5_authenticator_get
  unfoldable pub del : Bytes → M Tree ℤ
  del name t trace = elim (get t name) [
    | none ↦ (minus_one, t, trace)
    | some this ↦ (object_unref this.id >> pure (pos 0)) (rb.erase t this) trace
  ]

  -- hev_socks5_authenticator_clear, with the number of rounds that may be made
  unfoldable pub clear_loop : ℕ → M Tree (Unit {0})
  clear_loop zero t trace = (tt, t, trace)
  clear_loop (suc fuel) t trace = elim (rb.first t) [
    | none ↦ (tt, t, trace)
    | some n ↦ (object_unref n.id >> clear_loop fuel) (rb.erase t n) trace
  ]

  -- hev_socks5_authenticator_destruct, with the number of rounds that may be made
  unfoldable pub destruct : ℕ → M Tree (Unit {0})
  destruct fuel = do clear_loop fuel; emit freed

-- hev_socks5_authenticator_new: the object has `size` bytes, and `base_res` is the result of
-- hev_object_atomic_construct
unfoldable pub authenticator_new : Host → ℕ → ℤ → Trace → Option Tree × Trace
authenticator_new host size base_res t =
    let granted = host.on_malloc t size in
    if not granted
    then (none, allocated size granted ∷ t)
    else if is_neg base_res
    then (none, freed ∷ allocated size granted ∷ t)
    else (some leaf, allocated size granted ∷ t)
