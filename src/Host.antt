-- ===== src/Host.antt =====
-- What the library runs on: the sockets, the scheduler, the resolver and the allocator
-- (HevTaskSystem, libc and the kernel), which are not part of the repository. A `Host` answers each
-- call; an answer may depend on everything that happened before, so a theorem about every host is a
-- theorem about every peer, network and schedule. The trace records each call with its answer.
use hev_socks5_core.Base.{ℕ, Bool, Option, List, ◌∷◌, Bytes, ℤ, ◌==◌, length}
use hev_socks5_core.Base.{none, some, if◌then◌else◌}

-- struct sockaddr_in6, its port and address as the bytes that stand in memory
pub record Sockaddr : Type 0 where
  pub family : ℕ
  pub port : Bytes
  pub addr : Bytes

pub data SocketType : Type 0 where
  stream dgram : SocketType

-- The socket options that the code sets.
pub data SocketOption : Type 0 where
  v6only reuseaddr : SocketOption
  rcvbuf : ℤ → SocketOption

-- The result of a read: the bytes, or a negative result, `failed n` for -(n + 1).
pub data Received : Type 0 where
  got : Bytes → Received
  failed : ℕ → Received

-- The results of a `recv` that does not block: a byte, the end of the stream, EAGAIN, another error.
pub data Probe : Type 0 where
  probe_byte probe_end probe_again probe_error : Probe

-- The result of hev_task_io_socket_recvmmsg: the datagrams with their senders, or a negative result.
pub data Batch : Type 0 where
  got_batch : List (Bytes × Sockaddr) → Batch
  batch_failed : ℕ → Batch

-- HevTaskYieldType
pub data YieldType : Type 0 where
  yield waitio : YieldType

-- A call to the outside, with its arguments and then its answer.
pub data Event : Type 0 where
  opened : SocketType → ℤ → Event
  closed : ℤ → Event
  option_set : ℤ → SocketOption → ℤ → Event
  fd_added fd_changed : ℤ → ℤ → Event
  fd_removed : ℤ → Event
  hooked connected bound : ℤ → Sockaddr → ℤ → Event
  named : ℤ → Option Sockaddr → Event
  received : ℤ → ℕ → Received → Event
  sent : ℤ → Bytes → ℤ → Event
  resolved : Bytes → ℕ → Option (ℕ × Bytes) → Event
  allocated : ℕ → Bool → Event
  freed : Event
  referenced unreferenced : ℕ → Event
  yielded : YieldType → Event
  slept : ℤ → ℤ → Event
  probed : ℤ → Probe → Event
  batch_received : ℤ → List ℕ → Batch → Event
  batch_sent : ℤ → List (Option Sockaddr × Bytes) → ℤ → Event
  spliced : ℤ → ℤ → Event
  -- a read through a bad pointer, out of bounds or at a wrong type: what the model does from there on
  -- is not the program's
  faulted : Event

-- The newest event first.
abbrev pub Trace : Type 0
Trace = List Event

-- The settings of the library (the static variables of hev-socks5-misc.c).
pub record Config : Type 0 where
  pub connect_timeout : ℤ
  pub tcp_timeout : ℤ
  pub udp_timeout : ℤ
  pub task_stack_size : ℤ
  pub udp_recv_buffer_size : ℤ
  pub udp_copy_buffer_nums : ℤ

-- The answers of the outside, and the settings in force.
pub record Host : Type 0 where
  pub config : Config
  pub on_socket : Trace → SocketType → ℤ
  pub on_setsockopt : Trace → ℤ → SocketOption → ℤ
  pub on_add_fd : Trace → ℤ → ℤ
  pub on_mod_fd : Trace → ℤ → ℤ
  -- the class's `binder`, which an application may override
  pub on_binder : Trace → ℤ → Sockaddr → ℤ
  pub on_connect : Trace → ℤ → Sockaddr → ℤ
  pub on_bind : Trace → ℤ → Sockaddr → ℤ
  pub on_getsockname : Trace → ℤ → Option Sockaddr
  pub on_recv : Trace → ℤ → ℕ → Received
  pub on_send : Trace → ℤ → Bytes → ℤ
  pub on_getaddrinfo : Trace → Bytes → ℕ → Option (ℕ × Bytes)
  pub on_malloc : Trace → ℕ → Bool
  -- the calls of its yielder that a blocking call of the UDP relay makes before it answers
  pub on_waits : Trace → List YieldType
  pub on_probe : Trace → ℤ → Probe
  pub on_sleep : Trace → ℤ → ℤ
  -- a read of up to n bytes that does not wait for all of them; the flag is MSG_DONTWAIT
  pub on_recv_some : Trace → Bool → ℤ → ℕ → Received
  -- the list has the sizes of the buffers
  pub on_recvmmsg : Trace → ℤ → List ℕ → Batch
  pub on_sendmmsg : Trace → ℤ → List (Option Sockaddr × Bytes) → ℤ
  -- the byte at an offset of memory that was just allocated
  pub uninit : Trace → ℕ → ℕ
  -- `errno == EAGAIN`
  pub is_again : Trace → Bool
  -- `inet_pton` for AF_INET and AF_INET6
  pub inet_pton4 : Bytes → Option Bytes
  pub inet_pton6 : Bytes → Option Bytes

-- A function of the library: it changes an object `S` and adds to the trace.
abbrev pub M : Type 0 → Type 0 → Type 0
M S A = S → Trace → A × S × Trace

abbrev pub pure : {S A : Type 0} → A → M S A
pure a s t = (a, s, t)

infixl 5 ◌>>=◌ ◌>>◌
abbrev pub ◌>>=◌ : {S A B : Type 0} → M S A → (A → M S B) → M S B
◌>>=◌ m f s t = let (a, s', t') = m s t in f a s' t'

abbrev pub ◌>>◌ : {S A B : Type 0} → M S A → M S B → M S B
m >> k = m >>= λ _. k

-- The object itself, and its replacement.
abbrev pub self : {S : Type 0} → M S S
self s t = (s, s, t)

abbrev pub modify : {S : Type 0} → (S → S) → M S (Unit {0})
modify f s t = (tt, f s, t)

abbrev pub emit : {S : Type 0} → Event → M S (Unit {0})
emit e s t = (tt, s, e ∷ t)

-- A call that is answered by `reply` and recorded by `event`.
abbrev pub call : {S A : Type 0} → (Trace → A) → (A → Event) → M S A
call reply event s t = let a = reply t in (a, s, event a ∷ t)

-- The bytes of a read that must return exactly n: `res != n` is the case of `none`.
abbrev pub exactly : ℕ → Received → Option Bytes
exactly n (got bytes) = if length bytes == n then some bytes else none
exactly n (failed _) = none

module _ (host : Host) {S : Type 0} where
  abbrev pub recv : ℤ → ℕ → M S Received
  recv fd n = call (λ t. host.on_recv t fd n) (received fd n)

  abbrev pub send : ℤ → Bytes → M S ℤ
  send fd bytes = call (λ t. host.on_send t fd bytes) (sent fd bytes)

  abbrev pub socket : SocketType → M S ℤ
  socket ty = call (λ t. host.on_socket t ty) (opened ty)

  abbrev pub setsockopt : ℤ → SocketOption → M S ℤ
  setsockopt fd o = call (λ t. host.on_setsockopt t fd o) (option_set fd o)

  abbrev pub add_fd : ℤ → M S ℤ
  add_fd fd = call (λ t. host.on_add_fd t fd) (fd_added fd)

  abbrev pub mod_fd : ℤ → M S ℤ
  mod_fd fd = call (λ t. host.on_mod_fd t fd) (fd_changed fd)

  abbrev pub binder : ℤ → Sockaddr → M S ℤ
  binder fd sa = call (λ t. host.on_binder t fd sa) (hooked fd sa)

  abbrev pub connect : ℤ → Sockaddr → M S ℤ
  connect fd sa = call (λ t. host.on_connect t fd sa) (connected fd sa)

  abbrev pub bind : ℤ → Sockaddr → M S ℤ
  bind fd sa = call (λ t. host.on_bind t fd sa) (bound fd sa)

  abbrev pub getsockname : ℤ → M S (Option Sockaddr)
  getsockname fd = call (λ t. host.on_getsockname t fd) (named fd)

  abbrev pub sleep : ℤ → M S ℤ
  sleep timeout = call (λ t. host.on_sleep t timeout) (slept timeout)

  abbrev pub probe : ℤ → M S Probe
  probe fd = call (λ t. host.on_probe t fd) (probed fd)

  abbrev pub recv_some : Bool → ℤ → ℕ → M S Received
  recv_some nonblock fd n = call (λ t. host.on_recv_some t nonblock fd n) (received fd n)

  abbrev pub recvmmsg : ℤ → List ℕ → M S Batch
  recvmmsg fd sizes = call (λ t. host.on_recvmmsg t fd sizes) (batch_received fd sizes)

  abbrev pub sendmmsg : ℤ → List (Option Sockaddr × Bytes) → M S ℤ
  sendmmsg fd packets = call (λ t. host.on_sendmmsg t fd packets) (batch_sent fd packets)

  -- reads errno
  abbrev pub again : M S Bool
  again s t = (host.is_again t, s, t)

  abbrev pub getaddrinfo : Bytes → ℕ → M S (Option (ℕ × Bytes))
  getaddrinfo name family = call (λ t. host.on_getaddrinfo t name family) (resolved name family)

  abbrev pub malloc : ℕ → M S Bool
  malloc size = call (λ t. host.on_malloc t size) (allocated size)

module _ {S : Type 0} where
  abbrev pub del_fd : ℤ → M S (Unit {0})
  del_fd fd = emit (fd_removed fd)

  abbrev pub close : ℤ → M S (Unit {0})
  close fd = emit (closed fd)

  abbrev pub object_ref : ℕ → M S (Unit {0})
  object_ref id = emit (referenced id)

  abbrev pub object_unref : ℕ → M S (Unit {0})
  object_unref id = emit (unreferenced id)
