-- ===== src/Authenticator/Change.antt =====
-- Each change of the tree, as a change of the map from names to users that it stands for.
use mathlib.Core.Path.{fun_ext}
use Prim.Native.Nat.Ordering.{gt}
use hev_socks5_core.Base.{
  ◌≡◌, ◌≢◌, refl, ◌∙◌, sym, ap, subst, Option, none, some, List, [], ◌∷◌, ◌++◌, Bytes, Option-cases,
  inl, inr, ℤ, pos, minus_one, arith, Bool-cases, bytes_eq, bytes_eq_refl, eq_of_bytes_eq,
  if◌then◌else◌,
}
use hev_socks5_core.Host.{Trace, unreferenced}
use hev_socks5_core.User.{User, compare_names}
use hev_socks5_core.User.Order.{compare_names_refl}
use hev_socks5_core.Authenticator.{Tree, inorder, RbTree, get, link, add, del}
use hev_socks5_core.Authenticator.Link.{Placed, link-get, link-Placed}
use hev_socks5_core.Authenticator.Sorted.{
  Falling, IsSearchTree, Before, After, All-imp, Falling-left, Falling-right, Falling-Before,
  Falling-append, Falling-drop,
}
use hev_socks5_core.Authenticator.Find.{find, find-Before, find-After, get-find, bytes_ne_of_gt}

-- the map from names to users that a client of the authenticator sees
abbrev pub Users : Type 0
Users = Bytes → Option User

abbrev pub update : Users → Bytes → Option User → Users
update m name o n = if bytes_eq name n then o else m n

-- a user is added only under a name that is not in use
abbrev pub add_spec : User → Users → ℤ × Users
add_spec user m = elim (m user.name) [
  | none ↦ (pos 0, update m user.name (some user))
  | some _ ↦ (minus_one, m)
]

-- the user of the name is taken out, and its reference is dropped
abbrev pub del_spec : Bytes → Users → Trace → ℤ × Users × Trace
del_spec name m trace = elim (m name) [
  | none ↦ (minus_one, m, trace)
  | some u ↦ (pos 0, update m name none, unreferenced u.id ∷ trace)
]

find-insert :
    (name : Bytes) (u : User) (us vs : List User)
    → Before u.name us
    → find name (us ++ (u ∷ vs)) ≡ (if bytes_eq u.name name then some u else find name (us ++ vs))
unfolding find
find-insert name u [] vs b = refl
find-insert name u (x ∷ us) vs b = ground (
  arith,
  find-insert name u us vs b.1,
  eq_of_bytes_eq x.name name,
  eq_of_bytes_eq u.name name,
  bytes_ne_of_gt x.name u.name b.0,
  bytes_eq_refl name,
)

find-erase :
    (name : Bytes) (u : User) (us vs : List User)
    → Before u.name us
    → After u.name vs
    → find name (us ++ vs) ≡ (if bytes_eq u.name name then none else find name (us ++ (u ∷ vs)))
find-erase name u us vs b a = elim (Bool-cases (bytes_eq u.name name)) [
  | inl e ↦
      let same = eq_of_bytes_eq u.name name e in
      rw e (
        find-Before name us vs (subst (λ n. Before n us) same b)
        ∙ find-After name vs (subst (λ n. After n vs) same a))
  | inr e ↦ ground (arith, find-insert name u us vs b)
]

-- the place of a user that a search finds
pub find-Place :
    (name : Bytes) (l : List User) (u : User)
    → find name l ≡ some u
    → (us vs : List User) × (l ≡ us ++ (u ∷ vs)) × (u.name ≡ name)
unfolding find
find-Place name [] u h = cc
find-Place name (x ∷ l) u h = elim (Bool-cases (bytes_eq x.name name)) [
  | inl e ↦ ([], l, ground arith, ground (arith, eq_of_bytes_eq x.name name))
  | inr e ↦
      let (us, vs, split, same) = find-Place name l u (ground arith) in
      (x ∷ us, vs, ap (λ r. x ∷ r) split, same)
]

-- a tree whose users are those of `l` with `u` at its place
pub Placed-IsSearchTree : (u : User) (l l' : List User) → Placed u l l' → Falling l → Falling l'
Placed-IsSearchTree u l l' p h =
    let h' = subst Falling p.old h in
    subst Falling (sym p.new) (
      Falling-append p.us u p.vs (Falling-left p.us p.vs h') (Falling-right p.us p.vs h') p.before
        p.after)

find-Placed :
    (name : Bytes) (u : User) (l l' : List User)
    → Placed u l l'
    → find name l' ≡ (if bytes_eq u.name name then some u else find name l)
find-Placed name u l l' p = rw (p.new, p.old) (find-insert name u p.us p.vs p.before)

ne_of_Before : (u v : User) → compare_names v.name u.name ≡ gt → v ≢ u
ne_of_Before u v h e =
    let same : u.name ≡ v.name = ap (λ (w : User). w.name) (sym e) in
    let back : compare_names v.name v.name ≡ gt = rw same at h in
    cc (back, compare_names_refl v.name)

module _ (rb : RbTree) (t : Tree) (h : IsSearchTree t) where
  module _ (u : User) where
    module _ (t' : Tree) (e : link t u ≡ some t') where
      placed : Placed u (inorder t) (inorder (rb.insert_color t' u))
      placed = rw (rb.inorder-insert_color t' u) (link-Placed t u t' h e)

      linked-IsSearchTree : IsSearchTree (rb.insert_color t' u)
      linked-IsSearchTree = Placed-IsSearchTree u _ _ placed h

      get-linked :
          (name : Bytes) → get (rb.insert_color t' u) name ≡ update (get t) u.name (some u) name
      get-linked name =
          get-find (rb.insert_color t' u) name linked-IsSearchTree
          ∙ find-Placed name u _ _ placed
          ∙ rw (get-find t name h)

    -- hev_socks5_authenticator_add keeps the search tree, and adds the user to the map exactly
    -- where its name is not in use.
    pub add_refines :
        IsSearchTree (add rb u t).1 × (((add rb u t).0, get (add rb u t).1) ≡ add_spec u (get t))
    unfolding add
    add_refines = elim (Option-cases (link t u)) [
      | inl e ↦ elim (Option-cases (get t u.name)) [
        | inl g ↦ absurd ((link-get t u).0 e g)
        | inr (w, g) ↦ rw (e, add) (h, rw (g, add_spec))
      ]
      | inr (t', e) ↦ elim (Option-cases (get t u.name)) [
        | inl g ↦
            rw (e, add)
              (
                linked-IsSearchTree t' e,
                rw (g, add_spec) (ap (λ (m : Users). (pos 0, m)) (fun_ext (get-linked t' e))),
              )
        | inr (w, g) ↦ cc (e, (link-get t u).1 (λ n. cc (n, g)))
      ]
    ]

  module _ (u : User) (name : Bytes) (e : get t name ≡ some u) where
    erased :
        (us vs : List User) × (inorder t ≡ us ++ (u ∷ vs))
        × (inorder (rb.erase t u) ≡ us ++ vs)
        × (u.name ≡ name)
    erased =
        let (us, vs, split, same) = find-Place name (inorder t) u (sym (get-find t name h) ∙ e) in
        let before = Falling-Before us u vs (subst Falling split h) in
        (
          us,
          vs,
          split,
          rb.inorder-erase t u us vs split
              (All-imp (λ v. compare_names v.name u.name ≡ gt) _ (ne_of_Before u) us before),
          same,
        )

    erased-IsSearchTree : IsSearchTree (rb.erase t u)
    erased-IsSearchTree =
        let (us, vs, split, gone, same) = erased in
        subst Falling (sym gone) (Falling-drop us u vs (subst Falling split h))

    get-erased : (n : Bytes) → get (rb.erase t u) n ≡ update (get t) name none n
    get-erased n =
        let (us, vs, split, gone, same) = erased in
        let falling = subst Falling split h in
        get-find (rb.erase t u) n erased-IsSearchTree
        ∙ ap (find n) gone
        ∙ find-erase n u us vs (Falling-Before us u vs falling)
            (Falling-right us (u ∷ vs) falling).0
        ∙ ground (arith, get-find t n h, ap (find n) split, ap (λ (m : Bytes). bytes_eq m n) same)

  -- hev_socks5_authenticator_del keeps the search tree, takes the user of the name out of the map,
  -- and drops one reference to it; a name that is not in use changes nothing.
  pub del_refines :
      (name : Bytes) (trace : Trace)
      → let (res, t', trace') = del rb name t trace in
        IsSearchTree t' × ((res, get t', trace') ≡ del_spec name (get t) trace)
  unfolding del
  del_refines name trace = elim (Option-cases (get t name)) [
    | inl g ↦ rw (g, del) (h, rw (g, del_spec))
    | inr (u, g) ↦
        rw (g, del)
          (
            erased-IsSearchTree u name g,
            rw (g, del_spec)
                (ap (λ (m : Users). (pos 0, m, unreferenced u.id ∷ trace))
                  (fun_ext (get-erased u name g))),
          )
  ]
