-- ===== src/Udp/Waiting.antt =====
-- A blocked call of the relay reads nothing, sends no datagrams, opens and closes nothing, and changes the timeout of
-- the object only.
use hev_socks5_core.Base.{◌≡◌, refl, List, [], ◌∷◌, ℤ, arith}
use hev_socks5_core.Host.{Host, Trace, YieldType, yield, waitio, probed}
use hev_socks5_core.Wire.{consumed}
use hev_socks5_core.Sockets.{opens, closes, grants, frees, batches}
use hev_socks5_core.Misc.Yielder.{wait_for, io_yielder}
use hev_socks5_core.Socks5
use hev_socks5_core.Socks5.{Socks5, Kind, no_type, tcp, udp_in_tcp, udp_in_udp}
use hev_socks5_core.Udp.Defs.{probing, udp_yielder, task_io_yielder, yields, waits}

-- from (o, t) to (o', t') only the timeout changes, and nothing of the descriptor fd
abbrev pub Waited : ℤ → Socks5 → Trace → Socks5 → Trace → Type 0
Waited fd o t o' t' =
    (o'.fd ≡ o.fd)
    × (o'.kind ≡ o.kind)
    × (o'.udp_associated ≡ o.udp_associated)
    × (o'.addr_family ≡ o.addr_family)
    × (consumed fd t' ≡ consumed fd t)
    × (opens fd t' ≡ opens fd t)
    × (closes fd t' ≡ closes fd t)
    × (grants t' ≡ grants t)
    × (frees t' ≡ frees t)
    × (batches t' ≡ batches t)

module _ (host : Host) (fd : ℤ) (o : Socks5) (t : Trace) where
  pub io_yielder-Waited :
      (type : YieldType) → let (_, o', t') = io_yielder host type o t in Waited fd o t o' t'
  unfolding io_yielder wait_for consumed opens closes grants frees batches
  io_yielder-Waited yield = ground arith
  io_yielder-Waited waitio = ground arith

module _ (host : Host) (fd : ℤ) (o : Socks5) (t : Trace) where
  probing-Waited :
      (type : YieldType) → let (_, o', t') = probing host type o t in Waited fd o t o' t'
  unfolding probing Socks5.set_timeout consumed opens closes grants frees batches
  probing-Waited type =
      ground (arith, io_yielder-Waited host fd o (probed o.fd (host.on_probe t o.fd) ∷ t) type)

  udp_yielder-Waited :
      (kind : Kind) (type : YieldType)
      → let (_, o', t') = udp_yielder host kind type o t in Waited fd o t o' t'
  unfolding udp_yielder
  udp_yielder-Waited no_type type = io_yielder-Waited host fd o t type
  udp_yielder-Waited tcp type = io_yielder-Waited host fd o t type
  udp_yielder-Waited udp_in_tcp type = io_yielder-Waited host fd o t type
  udp_yielder-Waited udp_in_udp type = probing-Waited type

  pub task_io_yielder-Waited :
      (type : YieldType) → let (_, o', t') = task_io_yielder host type o t in Waited fd o t o' t'
  unfolding task_io_yielder
  task_io_yielder-Waited type = udp_yielder-Waited o.kind type

yields-Waited :
    (host : Host) (fd : ℤ) (types : List YieldType) (o : Socks5) (t : Trace)
    → let (_, o', t') = yields host types o t in Waited fd o t o' t'
unfolding yields
yields-Waited host fd [] o t = (refl, refl, refl, refl, refl, refl, refl, refl, refl, refl)
yields-Waited host fd (type ∷ types) o t =
    let (res, o1, t1) = task_io_yielder host type o t in
    ground (arith, task_io_yielder-Waited host fd o t type, yields-Waited host fd types o1 t1)

pub waits-Waited :
    (host : Host) (fd : ℤ) (o : Socks5) (t : Trace)
    → let (_, o', t') = waits host o t in Waited fd o t o' t'
unfolding waits
waits-Waited host fd o t = yields-Waited host fd (host.on_waits t) o t
