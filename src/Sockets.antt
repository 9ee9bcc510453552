-- ===== src/Sockets.antt =====
-- The events of a trace that concern descriptors and memory: all but the reads and writes on a
-- connection, the references to objects, the lookups of names, and a fault.
use hev_socks5_core.Base.{ℕ, suc, true, ◌+◌, ◌≡◌, refl, [], ◌∷◌, ℤ, if◌then◌else◌}
use hev_socks5_core.Host.{
  Trace, opened, closed, received, sent, resolved, referenced, unreferenced, faulted, allocated,
  freed, batch_sent,
}
use hev_socks5_core.Wire.{eq_ℤ}

unfoldable pub sockets : Trace → Trace
sockets [] = []
sockets (received _ _ _ ∷ t) = sockets t
sockets (sent _ _ _ ∷ t) = sockets t
sockets (referenced _ ∷ t) = sockets t
sockets (unreferenced _ ∷ t) = sockets t
sockets (resolved _ _ _ ∷ t) = sockets t
sockets (faulted ∷ t) = sockets t
sockets (e ∷ t) = e ∷ sockets t

-- how often a descriptor was opened, and how often it was closed
unfoldable pub opens : ℤ → Trace → ℕ
opens fd [] = 0
opens fd (opened _ fd' ∷ t) = (if eq_ℤ fd fd' then 1 else 0) + opens fd t
opens fd (_ ∷ t) = opens fd t

unfoldable pub closes : ℤ → Trace → ℕ
closes fd [] = 0
closes fd (closed fd' ∷ t) = (if eq_ℤ fd fd' then 1 else 0) + closes fd t
closes fd (_ ∷ t) = closes fd t

-- how many blocks of memory were granted, and how many were given back
unfoldable pub grants : Trace → ℕ
grants [] = 0
grants (allocated _ true ∷ t) = suc (grants t)
grants (_ ∷ t) = grants t

unfoldable pub frees : Trace → ℕ
frees [] = 0
frees (freed ∷ t) = suc (frees t)
frees (_ ∷ t) = frees t

-- the batches that have been given to sendmmsg
unfoldable pub batches : Trace → ℕ
batches [] = 0
batches (batch_sent fd ds res ∷ t) = suc (batches t)
batches (_ ∷ t) = batches t

pub opens-sockets : (fd : ℤ) (t : Trace) → opens fd (sockets t) ≡ opens fd t
unfolding opens sockets
opens-sockets fd [] = refl
opens-sockets fd (opened ty fd' ∷ t) = rw (opens-sockets fd t)
opens-sockets fd (_ ∷ t) = opens-sockets fd t

pub closes-sockets : (fd : ℤ) (t : Trace) → closes fd (sockets t) ≡ closes fd t
unfolding closes sockets
closes-sockets fd [] = refl
closes-sockets fd (closed fd' ∷ t) = rw (closes-sockets fd t)
closes-sockets fd (_ ∷ t) = closes-sockets fd t
