-- ===== src/Authenticator/Life.antt =====
-- An authenticator from hev_socks5_authenticator_new to its destruction.
use hev_socks5_core.Base.{
  ℕ, ◌<◌, ◌≡◌, ◌⊎◌, refl, ap, sym, ◌∙◌, Option, none, some, List, [], ◌∷◌, Bytes, ℤ, is_neg,
  Bool-cases, Option-cases, inl, inr, pos, minus_one, bytes_eq, eq_of_bytes_eq, length,
  if◌then◌else◌,
}
use hev_socks5_core.Host.{Host, Trace, freed}
use hev_socks5_core.User.{User}
use hev_socks5_core.Authenticator.{
  Tree, leaf, inorder, RbTree, get, add, destruct, authenticator_new,
}
use hev_socks5_core.Authenticator.Sorted.{IsSearchTree}
use hev_socks5_core.Authenticator.Find.{find}
use hev_socks5_core.Authenticator.Change.{add_spec, update, Users, add_refines}
use hev_socks5_core.Authenticator.Clear.{drops, clear_lem}

-- the first of two answers
abbrev first_of : Option User → Option User → Option User
first_of none o = o
first_of (some u) o = some u

-- the map after a user was added
add_spec-none :
    (u : User) (m : Users) (name : Bytes)
    → m u.name ≡ none
    → (add_spec u m).1 name ≡ (if bytes_eq u.name name then some u else m name)
add_spec-none u m name g = ap (λ (o : Option User). (seen o).1 name) g
  where
    seen : Option User → ℤ × Users
    seen o = elim o [ none ↦ (pos 0, update m u.name (some u)) | some _ ↦ (minus_one, m) ]

add_spec-some :
    (u w : User) (m : Users) (name : Bytes) → m u.name ≡ some w → (add_spec u m).1 name ≡ m name
add_spec-some u w m name g = ap (λ (o : Option User). (seen o).1 name) g
  where
    seen : Option User → ℤ × Users
    seen o = elim o [ none ↦ (pos 0, update m u.name (some u)) | some _ ↦ (minus_one, m) ]

module _ (rb : RbTree) where
  -- the users are added in order
  abbrev pub add_all : List User → Tree → Tree
  add_all [] t = t
  add_all (u ∷ us) t = add_all us (add rb u t).1

  get-added :
      (u : User) (t : Tree) (name : Bytes) (later : Option User)
      → IsSearchTree t
      → first_of (get (add rb u t).1 name) later
        ≡ first_of (get t name) (if bytes_eq u.name name then some u else later)
  get-added u t name later h =
      let (s, e) = add_refines rb t h u in
      let same : get (add rb u t).1 name ≡ (add_spec u (get t)).1 name =
        ap (λ (x : ℤ × Users). x.1 name) e in
      elim (Option-cases (get t u.name)) [
        | inl g ↦ elim (Bool-cases (bytes_eq u.name name)) [
          | inl b ↦
              let g' : get t name ≡ none = ap (get t) (sym (eq_of_bytes_eq u.name name b)) ∙ g in
              rw (same ∙ add_spec-none u (get t) name g, b, g') refl
          | inr b ↦ rw (same ∙ add_spec-none u (get t) name g, b) refl
        ]
        | inr (w, g) ↦ elim (Bool-cases (bytes_eq u.name name)) [
          | inl b ↦
              let g' : get t name ≡ some w = ap (get t) (sym (eq_of_bytes_eq u.name name b)) ∙ g in
              rw (same ∙ add_spec-some u w (get t) name g, g') refl
          | inr b ↦ rw (same ∙ add_spec-some u w (get t) name g, b) refl
        ]
      ]

  add_all-get :
      (us : List User) (t : Tree)
      → IsSearchTree t
      → IsSearchTree (add_all us t)
        × ((name : Bytes) → get (add_all us t) name ≡ first_of (get t name) (find name us))
  unfolding find
  add_all-get [] t h = (h, λ name. keep (get t name))
    where
      keep : (o : Option User) → o ≡ first_of o none
      keep none = refl
      keep (some u) = refl
  add_all-get (u ∷ us) t h =
      let (s, _) = add_refines rb t h u in
      let (sorted, later) = add_all-get us (add rb u t).1 s in
      (sorted, λ name. later name ∙ get-added u t name (find name us) h)

  -- hev_socks5_authenticator_new returns no authenticator, or one in which, after users have been
  -- added in some order, hev_socks5_authenticator_get finds for each name the first of these users
  -- that has it, and none where no user has it.
  pub add_all-find :
      (host : Host) (size : ℕ) (base_res : ℤ) (t : Trace) (us : List User) (name : Bytes)
      → let (made, _) = authenticator_new host size base_res t in
        (made ≡ none)
        ⊎ ((empty : Tree) × (made ≡ some empty) × (get (add_all us empty) name ≡ find name us))
  unfolding authenticator_new get
  add_all-find host size base_res t us name =
      let (_, found) = add_all-get us leaf tt in
      elim (Bool-cases (host.on_malloc t size)) [
        | inr g ↦ inl (rw (authenticator_new, g) refl)
        | inl g ↦ elim (Bool-cases (is_neg base_res)) [
          | inl b ↦ inl (rw (authenticator_new, g, b) refl)
          | inr b ↦ inr (leaf, rw (authenticator_new, g, b) refl, found name)
        ]
      ]

  -- Given a round more than there are users, hev_socks5_authenticator_destruct drops one reference to
  -- each user, from left to right, and then frees the object.
  pub destruct_lem :
      (fuel : ℕ) (t : Tree) (trace : Trace)
      → length (inorder t) < fuel
      → let (_, t', trace') = destruct rb fuel t trace in
        (inorder t' ≡ []) × (trace' ≡ freed ∷ drops (inorder t) trace)
  unfolding destruct
  destruct_lem fuel t trace h =
      let (e, d) = clear_lem rb fuel t trace h in (e, ap (λ x. freed ∷ x) d)
