-- ===== src/Lib.antt =====
-- Verification of hev-socks5-core, a SOCKS5 client and server library in C (src/ of the repository).
--
-- A server task (src/hev-socks5-server.c) owns one connection: it negotiates a method, checks the
-- credentials against the authenticator, reads a request, opens what the command asks for, and
-- replies. A client (src/hev-socks5-client.c with its TCP and UDP variants) connects to a server and
-- writes what the server reads, message by message or pipelined. Both extend the object of
-- src/hev-socks5.c and use the addresses, the resolver and the sockets of src/hev-socks5-misc.c. The
-- authenticator (src/hev-socks5-authenticator.c) is a search tree of users
-- (src/hev-socks5-user.c) over the red-black tree of src/hev-rbtree.c.
--
-- Behind the handshake a server relays: a TCP connection by hev_task_io_splice
-- (src/hev-socks5-tcp.c), and datagrams by the loop of src/hev-socks5-udp.c, which frames them on the
-- connection (UDP in TCP) or in packets of an association (UDP in UDP).
--
-- Base           numbers, tests, integers, bytes and memory
-- Host           what is outside of the repository: sockets, scheduler, resolver, allocator; the
--                trace of all calls with their answers, and the monad of a call (object and trace)
-- Wire, Sockets  what a trace says of the byte streams and of the descriptors
-- Proto          the constants of src/hev-socks5-proto.h
-- Misc           src/hev-socks5-misc.c: Addr (hev_socks5_addr_*), Resolve (the resolver), Socket
--                (hev_socks5_socket and the settings), Yielder (hev_socks5_task_io_yielder), Text
--                (hev_socks5_addr_into_str, over inet_ntop and snprintf); Answer, RoundTrip and Name
--                are proofs
-- Socks5         src/hev-socks5.c
-- User           src/hev-socks5-user.c; Order has the laws of the order of names, Check and
--                Memory the proofs
-- Authenticator  src/hev-socks5-authenticator.c over the interface RbTree; Sorted has the invariant,
--                Find, Link, Change, Clear and Life the proofs
-- Server         src/hev-socks5-server.c: Defs (object), Negotiate (authentication), Request (request
--                and response), Handshake (commands and their order), Run (hev_socks5_server_new,
--                _service, _run and _get_fd); the others are proofs
-- Client         src/hev-socks5-client.c, -tcp.c and -udp.c: Defs (objects), New (constructors and
--                get_fd), Upstream (get_upstream_addr and set_upstream_addr), Messages, Handshake; the
--                others are proofs
-- Tcp            src/hev-socks5-tcp.c
-- Udp            src/hev-socks5-udp.c: Defs (messages and the yielder), Send, Recv and RecvUdp
--                (sendmmsg and recvmmsg), Forward (fwd_f and fwd_b), Splice (the splicer); the others
--                are proofs
-- Session        a client and a server on one connection; all of it is proofs
-- Classes        the class tables of all objects, with hev_socks5_tcp_splice and hev_socks5_udp_splice;
--                Use (an application that uses them), Sound and Inherit are proofs
-- Logger         src/hev-socks5-logger.c; Print (the time of a message); Line and Life are proofs
-- Tests          concrete runs
--
-- In Session each side of the connection has a host of its own; that they are connected is the
-- hypothesis that each host delivers what the trace of the other says it has sent (`Streams`). The
-- pipelined client sends all before it reads, so this is how two such tasks run.
--
-- A class table is a record of what its slots point to (`Function`). The logger has a trace of its own
-- calls (`LogTrace`); what vsnprintf makes of a format is an argument (`Printed`).
--
-- A function of the library is a definition of the same name, less its prefix hev_socks5_server_ and
-- the like, in the monad of Host: an object, a trace and a result. Every answer of the outside may
-- depend on the whole trace, so a theorem for all hosts is one for all peers, networks and
-- schedules. A read is modelled with its result and its bytes; a test `res != n` on a read is
-- `exactly n`. A struct on the wire is its list of bytes, with the offsets of the packed struct; the
-- machine is little-endian. A byte that an `int` or a `size_t` is stored in keeps `% 256`. A read
-- through a null pointer or one that was never written, beyond the messages of the relay, or of a
-- user as an authenticator, is the event `faulted`; what follows it is not the program's.
--
-- The handshake sees the yielder only as a read or a write that fails. The relay, whose yielder
-- changes the object, calls it at each blocking call as often as the host says (`on_waits`), before
-- the call is answered. A message of the relay that is received is a block of memory with offsets
-- (`Msg`); one that is sent is what its pointers point to (`Datagram`). A write into a block beyond
-- its end would make it longer, so a block that keeps its length was written inside only.
--
-- The loop of hev_socks5_authenticator_clear runs on fuel: one round more than there are users is
-- enough. The loop of hev_socks5_udp_splicer has no bound in the program, since a relay goes on as
-- long as both sides talk; `fuel` is the number of rounds that are looked at, and the result `none`
-- says that the relay is still running. All other loops are structural.
--
-- Not modelled: src/hev-rbtree.c, a copy of the tree of Linux, which is the interface RbTree with
-- three laws (no node is reordered by the insertion, one is taken out by the removal, the first is
-- leftmost); HevObject and HevTask, which are not part of the repository, with the copying of
-- hev_task_io_splice; the macros of src/hev-compiler.h; the calls of the logger in the other parts,
-- since no result of them is used; an overflow of the `int` product in the size of the relay's buffer.
pub mod Base
pub mod Host
pub mod Proto
pub mod Wire
pub mod Sockets
pub mod Misc
pub mod Logger
pub mod Socks5
pub mod Classes
pub mod User
pub mod Authenticator
pub mod Server
pub mod Session
pub mod Client
pub mod Tests
pub mod Udp
pub mod Tcp
