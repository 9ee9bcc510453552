-- ===== src/Misc/Name.antt =====
-- hev_socks5_addr_from_name writes the name, its length and the port.
use hev_socks5_core.Base.{
  subst, ℕ, zero, suc, ◌+◌, ◌-◌, ◌%◌, ◌≤◌, ◌<◌, ◌≡◌, refl, sym, ap, ◌∙◌, [], ◌∷◌, ◌++◌, Bytes, ℤ,
  pos, arith, length, take, drop, replicate, length-append, take-append, append_assoc, read_at,
  write_at, take_all,
}
use hev_socks5_core.Misc.Addr.{
  Addr, addr_len, strlen, c_string, strncpy, addr_from_name, domain_len,
}
use hev_socks5_core.Misc.Bytes16.{host_bytes}
use hev_socks5_core.Proto.AddrType

-- a string without a 0 is as long as it is
strlen_max : (bs : Bytes) → strlen bs ≤ length bs
unfolding strlen
strlen_max [] = omega arith
strlen_max (zero ∷ bs) = omega arith
strlen_max (suc c ∷ bs) = omega (arith, strlen_max bs)

strlen-append :
    (name more : Bytes) → strlen name ≡ length name → strlen (name ++ (0 ∷ more)) ≡ length name
unfolding strlen
strlen-append [] more e = refl
strlen-append (zero ∷ name) more e = absurd (omega arith)
strlen-append (suc c ∷ name) more e = ap suc (strlen-append name more (omega arith))

take-append_more : (xs ys : Bytes) (k : ℕ) → take (length xs + k) (xs ++ ys) ≡ xs ++ take k ys
take-append_more [] ys k = let e : 0 + k ≡ k = omega arith in rw e refl
take-append_more (x ∷ xs) ys k =
    let e : suc (length xs) + k ≡ suc (length xs + k) = omega arith in
    rw e (ap (λ r. x ∷ r) (take-append_more xs ys k))

-- the string with at least one 0 behind it
strncpy-padded :
    (name : Bytes)
    → strlen name ≡ length name
    → length name < 256
    → (more : Bytes) × (strncpy 256 name ≡ name ++ (0 ∷ more))
unfolding strncpy c_string
strncpy-padded name e h =
    let k = 255 - length name in
    let n : 256 ≡ length name + suc k = omega arith in
    let whole : take (strlen name) name ≡ name = take_all name (strlen name) (omega arith) in
    (
      take k (replicate 255 0),
      ap (λ x. take 256 (x ++ replicate 256 0)) whole
          ∙ ap (λ x. take x (name ++ replicate 256 0)) n
          ∙ take-append_more name (replicate 256 0) (suc k),
    )

-- hev_socks5_addr_from_name behind its strncpy of the bytes c
abbrev laid_out : Addr → Bytes → ℕ → ℤ × Addr
laid_out m c port =
    let m1 = write_at (write_at m 0 (AddrType.name ∷ [])) 2 c in
    let m2 = write_at m1 1 ((strlen (read_at m1 2 258) % 256) ∷ []) in
    let m3 = write_at m2 (2 + domain_len m2) (host_bytes port) in (pos (4 + domain_len m3), m3)

abbrev pub Encodes : Bytes → ℕ → ℤ × Addr → Type 0
Encodes name port (res, a) =
    (res ≡ pos (4 + length name))
    × (take (4 + length name) a ≡ 3 ∷ length name ∷ (name ++ host_bytes port))
    × (addr_len a ≡ res)

laid_out-Encodes :
    (x0 x1 : ℕ) (m name more : Bytes) (port : ℕ)
    → strlen name ≡ length name
    → length name < 256
    → Encodes name port (laid_out (x0 ∷ x1 ∷ m) (name ++ (0 ∷ more)) port)
unfolding addr_len
laid_out-Encodes x0 x1 m name more port e h =
    let copy = name ++ (0 ∷ more) in
    let T = drop (2 + length copy) (3 ∷ x1 ∷ m) in
    let k = 257 - length name in
    let n : 258 ≡ length name + suc k = omega arith in
    let split = append_assoc name (0 ∷ more) T in
    let read : take 258 (copy ++ T) ≡ name ++ (0 ∷ take k (more ++ T)) =
      ap (take 258) split
      ∙ ap (λ x. take x (name ++ (0 ∷ (more ++ T)))) n
      ∙ take-append_more name (0 ∷ (more ++ T)) (suc k) in
    let s : strlen (take 258 (copy ++ T)) ≡ length name =
      ap strlen read ∙ strlen-append name (take k (more ++ T)) e in
    let b : strlen (take 258 (copy ++ T)) % 256 ≡ length name = ap (λ x. x % 256) s ∙ omega arith in
    let front = 3 ∷ length name ∷ name in
    let M = 3 ∷ length name ∷ (copy ++ T) in
    let two : 2 + length name ≡ length front = omega arith in
    let t : take (2 + length name) M ≡ front =
      ap (λ x. take x M) two
      ∙ ap (λ x. 3 ∷ length name ∷ take (length name) x) split
      ∙ ap (λ x. 3 ∷ length name ∷ x) (take-append name (0 ∷ (more ++ T))) in
    let D = drop (2 + length name + 2) M in
    let e3 : write_at M (2 + length name) (host_bytes port) ≡ (front ++ host_bytes port) ++ D =
      ap (λ x. (x ++ host_bytes port) ++ D) t in
    let four : 4 + length name ≡ length (front ++ host_bytes port) =
      omega (arith, length-append front (host_bytes port)) in
    let d : domain_len (write_at M (2 + length name) (host_bytes port)) ≡ length name =
      ap domain_len e3 in
    rw b (
      ap (λ x. pos (4 + x)) d,
      ap (take (4 + length name)) e3
          ∙ ap (λ x. take x ((front ++ host_bytes port) ++ D)) four
          ∙ take-append (front ++ host_bytes port) D,
      ap addr_len e3 ∙ sym (ap (λ x. pos (4 + x)) d),
    )

-- Memory of at least 260 bytes, and a name of less than 256 bytes without a 0:
-- hev_socks5_addr_from_name writes the type 3, the length, the name and the port as it stands in the
-- memory of the machine, and returns the length of this, which hev_socks5_addr_len finds again.
pub addr_from_name-Encodes :
    (m name : Bytes) (port : ℕ)
    → 260 ≤ length m
    → strlen name ≡ length name
    → length name < 256
    → Encodes name port (addr_from_name m name port)
unfolding addr_from_name
addr_from_name-Encodes [] name port l e h = absurd (omega arith)
addr_from_name-Encodes (x0 ∷ []) name port l e h = absurd (omega arith)
addr_from_name-Encodes (x0 ∷ x1 ∷ m) name port l e h =
    let (more, pad) = strncpy-padded name e h in
    subst (λ c. Encodes name port (laid_out (x0 ∷ x1 ∷ m) c port)) (sym pad)
      (laid_out-Encodes x0 x1 m name more port e h)
