-- ===== src/Trace/Payload.antt =====
-- bpf/dns_trace.bpf.c, bpf/http_trace.bpf.c and bpf/db_trace.bpf.c: messages of sockets, with the
-- start of their payload; and bpf/http_capture.bpf.c, which has none.
pub mod Copy
use stb_e_bpf.Base.{
  ℕ, ◌+◌, ◌-◌, min, Bool, not, ◌&&◌, ◌||◌, Option, none, some, List, [], ◌∷◌, ◌++◌, ltb, leb, ◌==◌,
  if◌then◌else◌, length, take, drop, replicate,
}
use stb_e_bpf.Trace.{Event, Ring, Task, Sock, data_len, pid_of, emit, ntohs, no_data}

-- The first buffer of a message: its address may be null, its length, and the bytes that can be
-- read at its address.
pub record Iov : Type 0 where
  pub has_base : Bool
  pub iov_len : ℕ
  pub user : List ℕ

-- What `bpf_probe_read_user` writes: a read that fails clears the destination.
unfoldable pub probe_read_user : ℕ → List ℕ → List ℕ
probe_read_user n user = if leb n (length user) then take n user else replicate n 0

-- The copy of the payload and its terminator; without a buffer the array stays as it is.
unfoldable pub copy_payload : Option Iov → List ℕ → List ℕ
copy_payload kvec old = elim kvec [
  | none ↦ old
  | some iov ↦
      let copy_len = min iov.iov_len (data_len - 1) in
      if iov.has_base && ltb 0 iov.iov_len
      then probe_read_user copy_len iov.user ++ (0 ∷ drop (copy_len + 1) old)
      else old
]

-- The fields that the handlers of messages write.
abbrev pub fill_message : Task → Sock → ℕ → ℕ → ℕ → ℕ → ℕ → Option Iov → Event → Event
fill_message t sk now type protocol size direction kvec old = record old {
  timestamp_ns = now;
  type = type;
  pid = pid_of t;
  comm = t.comm;
  src_ip = sk.rcv_saddr;
  dst_ip = sk.daddr;
  src_port = sk.num;
  dst_port = ntohs sk.dport;
  protocol = protocol;
  bytes = size;
  packets = 1;
  latency_ns = 0;
  count = direction;
  data_bytes = copy_payload kvec old.data_bytes;
}

abbrev pub either : ℕ → Sock → Bool
either port sk = sk.num == port || ntohs sk.dport == port

-- `handle_udp_msg`.
unfoldable pub handle_udp_msg : Task → ℕ → Sock → Option Iov → ℕ → ℕ → Ring → Ring
handle_udp_msg t now sk kvec size direction rb =
    if not (either 53 sk) then rb else emit (fill_message t sk now 3 17 size direction kvec) rb

-- `handle_tcp_msg` of bpf/http_trace.bpf.c.
unfoldable pub handle_tcp_msg : Task → ℕ → Sock → Option Iov → ℕ → ℕ → Ring → Ring
handle_tcp_msg t now sk kvec size direction rb =
    if not (either 80 sk || either 443 sk || either 8080 sk)
    then rb
    else emit (fill_message t sk now 2 6 size direction kvec) rb

-- `handle_db_tcp`: 10 is MySQL and 11 is Redis.
unfoldable pub handle_db_tcp : Task → ℕ → Sock → Option Iov → ℕ → ℕ → Ring → Ring
handle_db_tcp t now sk kvec size direction rb =
    if not (either 3306 sk || either 6379 sk)
    then rb
    else emit (fill_message t sk now (if either 3306 sk then 10 else 11) 6 size direction kvec) rb

-- `struct event e = {}`.
abbrev pub zero_event : Event
zero_event = record {
  timestamp_ns = 0;
  type = 0;
  pid = 0;
  ppid = 0;
  src_ip = 0;
  dst_ip = 0;
  src_port = 0;
  dst_port = 0;
  protocol = 0;
  bytes = 0;
  packets = 0;
  latency_ns = 0;
  count = 0;
  comm = [];
  data_bytes = no_data;
}

-- `handle_tcp_msg` of bpf/http_capture.bpf.c, with the events of its perf buffer.
unfoldable pub capture_tcp_msg : Task → ℕ → Sock → ℕ → ℕ → List Event → List Event
capture_tcp_msg t now sk size direction events =
    if not (either 80 sk || either 443 sk || either 8080 sk)
    then events
    else events ++ (fill_message t sk now 2 6 size direction none zero_event ∷ [])

-- The entry points on `sendmsg` and `recvmsg`, with the direction that each hands over.
unfoldable pub trace_udp_sendmsg : Task → ℕ → Sock → Option Iov → ℕ → Ring → Ring
trace_udp_sendmsg t now sk kvec size = handle_udp_msg t now sk kvec size 1

unfoldable pub trace_udp_recvmsg : Task → ℕ → Sock → Option Iov → ℕ → Ring → Ring
trace_udp_recvmsg t now sk kvec size = handle_udp_msg t now sk kvec size 2

unfoldable pub trace_tcp_sendmsg : Task → ℕ → Sock → Option Iov → ℕ → Ring → Ring
trace_tcp_sendmsg t now sk kvec size = handle_tcp_msg t now sk kvec size 1

unfoldable pub trace_tcp_recvmsg : Task → ℕ → Sock → Option Iov → ℕ → Ring → Ring
trace_tcp_recvmsg t now sk kvec size = handle_tcp_msg t now sk kvec size 2

unfoldable pub trace_db_tcp_sendmsg : Task → ℕ → Sock → Option Iov → ℕ → Ring → Ring
trace_db_tcp_sendmsg t now sk kvec size = handle_db_tcp t now sk kvec size 1

unfoldable pub trace_db_tcp_recvmsg : Task → ℕ → Sock → Option Iov → ℕ → Ring → Ring
trace_db_tcp_recvmsg t now sk kvec size = handle_db_tcp t now sk kvec size 2

-- Those of bpf/http_capture.bpf.c.
unfoldable pub capture_sendmsg : Task → ℕ → Sock → ℕ → List Event → List Event
capture_sendmsg t now sk size = capture_tcp_msg t now sk size 1

unfoldable pub capture_recvmsg : Task → ℕ → Sock → ℕ → List Event → List Event
capture_recvmsg t now sk size = capture_tcp_msg t now sk size 2
