-- ===== src/Trace.antt =====
-- The tracing programs under bpf/ that fill a `struct event` (bpf/common.h) in a ring buffer. What
-- the kernel's helpers answer is in the records below; the memory that a reservation hands out
-- holds what was there before, since `bpf_ringbuf_reserve` does not clear it.
pub mod Payload
pub mod Timers
pub mod Points
pub mod Packets
mod Checks
use stb_e_bpf.Base.{
  ℕ, ◌+◌, ◌*◌, ◌/◌, ◌%◌, Option, none, some, List, [], ◌∷◌, ◌++◌, replicate, u32_mod,
}

-- `struct event`, without its padding. `data` is the whole array.
pub record Event : Type 0 where
  pub timestamp_ns : ℕ
  pub type : ℕ
  pub pid : ℕ
  pub ppid : ℕ
  pub src_ip : ℕ
  pub dst_ip : ℕ
  pub src_port : ℕ
  pub dst_port : ℕ
  pub protocol : ℕ
  pub bytes : ℕ
  pub packets : ℕ
  pub latency_ns : ℕ
  pub count : ℕ
  pub comm : List ℕ
  pub data_bytes : List ℕ

-- `DATA_LEN`.
abbrev pub data_len : ℕ
data_len = 256

-- `__builtin_memset(e->data, 0, sizeof(e->data))`.
abbrev pub no_data : List ℕ
no_data = replicate data_len 0

-- The ring buffer: what the next reservations give, and the events that have been submitted. No
-- reservation left is a full ring.
pub record Ring : Type 0 where
  pub reserved : List (Option Event)
  pub events : List Event

-- The thread that runs the program.
pub record Task : Type 0 where
  pub pid_tgid : ℕ
  pub comm : List ℕ

abbrev pub pid_of : Task → ℕ
pid_of t = t.pid_tgid / u32_mod

-- `bpf_ringbuf_reserve`, the writes to the event, and `bpf_ringbuf_submit`.
unfoldable pub emit : (Event → Event) → Ring → Ring
emit fill rb = elim rb.reserved [
  | [] ↦ rb
  | r ∷ rest ↦ elim r [
    | none ↦ record rb { reserved = rest }
    | some old ↦ record { reserved = rest; events = rb.events ++ (fill old ∷ []) }
  ]
]

-- `struct sock_common`: the addresses, the local port, and the other port in network order.
pub record Sock : Type 0 where
  pub rcv_saddr : ℕ
  pub daddr : ℕ
  pub num : ℕ
  pub dport : ℕ

-- `bpf_ntohs`.
abbrev pub ntohs : ℕ → ℕ
ntohs x = x % 0x100 * 0x100 + x / 0x100 % 0x100
