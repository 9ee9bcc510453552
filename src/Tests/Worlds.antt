-- ===== src/Tests/Worlds.antt =====
-- A small outside, a small set of users and a tree of them, for the runs.
use hev_socks5_core.Base.{
  ℕ, ℤ, ◌<◌, ◌≤◌, ◌⊎◌, ◌+◌, ◌≡◌, ◌≢◌, refl, ◌∙◌, ap, Bool, true, false, Option, none, some, List,
  [], ◌∷◌, ◌++◌, Bytes, pos, arith, ◌==◌, ◌&&◌, length, take, drop, bytes_eq, bytes_eq_refl,
  eq_of_bytes_eq, replicate, if◌then◌else◌, Bool-cases, inl, inr,
}
use hev_socks5_core.Host.{Host, Received, got, failed, probe_again, batch_failed}
use hev_socks5_core.Wire.{consumed}
use hev_socks5_core.Udp.Arrival.{Arrives}
use hev_socks5_core.Misc.Socket.{default_config}
use hev_socks5_core.User.{User}
use hev_socks5_core.Authenticator.{Tree, leaf, node, inorder, All, RbTree}

-- every call succeeds; the peer on each connection has sent `inbox`
abbrev pub calm : Bytes → Host
calm inbox = record {
  config = default_config;
  on_socket = λ t ty. pos (7 + length t);
  on_setsockopt = λ t fd o. pos 0;
  on_add_fd = λ t fd. pos 0;
  on_mod_fd = λ t fd. pos 0;
  on_binder = λ t fd sa. pos 0;
  on_connect = λ t fd sa. pos 0;
  on_bind = λ t fd sa. pos 0;
  on_getsockname = λ t fd. some (record { family = 10; port = 4 ∷ 5 ∷ []; addr = replicate 16 1 });
  on_recv = λ t fd n. got (take n (drop (consumed fd t) inbox));
  on_send = λ t fd bytes. pos (length bytes);
  on_getaddrinfo = λ t name family. some (2, (1 ∷ 2 ∷ 3 ∷ 4 ∷ []));
  on_malloc = λ t size. true;
  on_waits = λ t. [];
  uninit = λ t i. 0;
  on_probe = λ t fd. probe_again;
  on_sleep = λ t timeout. timeout;
  on_recv_some = λ t nonblock fd n. got (take n (drop (consumed fd t) inbox));
  on_recvmmsg = λ t fd sizes. batch_failed 0;
  on_sendmmsg = λ t fd packets. pos (length packets);
  is_again = λ t. true;
  inet_pton4 = λ name. none;
  inet_pton6 = λ name. none;
}

-- a read that does not block, where `unread` has arrived
abbrev pub arrived : ℕ → Bytes → Received
arrived n [] = failed 0
arrived n (b ∷ bs) = got (take n (b ∷ bs))

-- the same, but the peer may send more than `inbox` later
abbrev pub live : Bytes → Host
live inbox = record (calm inbox) {
  on_recv_some = λ t nonblock fd n. arrived n (drop (consumed fd t) inbox);
}

arrived_or_not :
    (n : ℕ) (unread : Bytes)
    → 0 < n
    → ((k : ℕ) × (0 < k) × (k ≤ n) × (arrived n unread ≡ got (take k unread)))
      ⊎ ((unread ≡ []) × (m : ℕ) × (arrived n unread ≡ failed m))
arrived_or_not n [] p = inr (refl, 0, refl)
arrived_or_not n (b ∷ bs) p = inl (n, p, omega arith, refl)

pub live-Arrives : (inbox : Bytes) (fd : ℤ) → Arrives (live inbox) true fd inbox
live-Arrives inbox fd t n p = arrived_or_not n (drop (consumed fd t) inbox) p

abbrev pub alice : User
alice = record { id = 1; name = 97 ∷ []; pass = 98 ∷ 99 ∷ [] }

abbrev pub bob : User
bob = record { id = 2; name = 98 ∷ 98 ∷ []; pass = 100 ∷ [] }

abbrev pub carol : User
carol = record { id = 3; name = 99 ∷ []; pass = 101 ∷ [] }

-- smaller names lead to the left, so the longest name is leftmost
abbrev pub two_users : Tree
two_users = node false (node true leaf bob leaf) alice leaf

abbrev pub same_user : User → User → Bool
same_user u v = (u.id == v.id) && (bytes_eq u.name v.name && bytes_eq u.pass v.pass)

same_user_refl : (u : User) → same_user u u ≡ true
same_user_refl u = ground (arith, bytes_eq_refl u.name, bytes_eq_refl u.pass)

eq_of_same_user : (u v : User) → same_user u v ≡ true → u ≡ v
eq_of_same_user u v h =
    let a : u.id ≡ v.id = ground arith in
    let b : u.name ≡ v.name = eq_of_bytes_eq u.name v.name (ground arith) in
    let c : u.pass ≡ v.pass = eq_of_bytes_eq u.pass v.pass (ground arith) in
    λ i. record { id = a i; name = b i; pass = c i }

abbrev pub remove : User → List User → List User
remove u [] = []
remove u (v ∷ vs) = if same_user v u then vs else (v ∷ remove u vs)

pub remove-append :
    (u : User) (us vs : List User) → All (λ v. v ≢ u) us → remove u (us ++ (u ∷ vs)) ≡ us ++ vs
remove-append u [] vs h = rw (same_user_refl u)
remove-append u (v ∷ us) vs h = elim (Bool-cases (same_user v u)) [
  | inl e ↦ absurd (h.0 (eq_of_same_user v u e))
  | inr e ↦ rw (e, remove-append u us vs h.1)
]

abbrev pub spine : List User → Tree
spine [] = leaf
spine (u ∷ us) = node false leaf u (spine us)

pub inorder-spine : (us : List User) → inorder (spine us) ≡ us
inorder-spine [] = refl
inorder-spine (u ∷ us) = ap (λ vs. u ∷ vs) (inorder-spine us)

abbrev pub head : List User → Option User
head [] = none
head (u ∷ us) = some u

-- a tree that is never balanced
abbrev pub unbalanced : RbTree
unbalanced = record {
  insert_color = λ t u. t;
  inorder-insert_color = λ t u. refl;
  erase = λ t u. spine (remove u (inorder t));
  inorder-erase = λ t u us vs e h.
      inorder-spine (remove u (inorder t)) ∙ ap (remove u) e ∙ remove-append u us vs h;
  first = λ t. head (inorder t);
  first-nil = λ t e. ap head e;
  first-cons = λ t u us e. ap head e;
}
