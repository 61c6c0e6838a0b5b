-- ===== src/Trace/Timers.antt =====
-- bpf/block_trace.bpf.c, bpf/syscall.bpf.c and bpf/tcp_connect.bpf.c: the programs that keep the
-- time of a start in a map and report how long it took. The maps are association lists with the
-- lookup and the deletion of the map of connect().
pub mod Latency
use stb_e_bpf.Base.{
  ℕ, ◌+◌, ◌*◌, ◌%◌, bit_or, Option, none, some, List, [], ◌∷◌, ltb, if◌then◌else◌, length, sub64,
  u64_mod,
}
use stb_e_bpf.Connect.{lookup, delete, replace}
use stb_e_bpf.Trace.{Event, Ring, Task, Sock, pid_of, emit, ntohs, no_data}

abbrev pub map_size : ℕ
map_size = 8192

-- `bpf_map_update_elem` on a map of that size.
unfoldable pub put : ℕ → ℕ → List (ℕ × ℕ) → List (ℕ × ℕ)
put key value m = elim (lookup key m) [
  | some old ↦ replace key value m
  | none ↦ if ltb (length m) map_size then (key, value) ∷ m else m
]

-- The maps of the three programs, each program with its own ring buffer.
pub record Tracer : Type 0 where
  pub starts : List (ℕ × ℕ)
  pub sizes : List (ℕ × ℕ)
  pub rb : Ring

-- `(dev << 32) | sector`.
abbrev pub block_key : ℕ → ℕ → ℕ
block_key dev sector = bit_or (dev * 0x1_0000_0000 % u64_mod) sector

-- `tracepoint_block_rq_issue`.
unfoldable pub block_rq_issue : Task → ℕ → ℕ → ℕ → ℕ → Tracer → Tracer
block_rq_issue t ts dev sector nr_sector k = record {
  starts = put (block_key dev sector) ts k.starts;
  sizes = put (block_key dev sector) nr_sector k.sizes;
  rb =
      emit
        (λ old. record old {
          timestamp_ns = ts;
          type = 16;
          pid = pid_of t;
          comm = t.comm;
          bytes = nr_sector * 512 % u64_mod;
          packets = 0;
          latency_ns = 0;
          count = 0;
          data_bytes = no_data;
        })
        k.rb;
}

-- `tracepoint_block_rq_complete`; `now` and `later` are its two readings of the clock.
unfoldable pub block_rq_complete : Task → ℕ → ℕ → ℕ → ℕ → Tracer → Tracer
block_rq_complete t now later dev sector k = elim (lookup (block_key dev sector) k.starts) [
  | none ↦ k
  | some start ↦ record {
    starts = delete (block_key dev sector) k.starts;
    sizes = delete (block_key dev sector) k.sizes;
    rb =
        emit
          (λ old. record old {
            timestamp_ns = later;
            type = 17;
            pid = pid_of t;
            comm = t.comm;
            latency_ns = sub64 now start;
            bytes = 0;
            packets = 0;
            count = 1;
            data_bytes = no_data;
          })
          k.rb;
  }
]

-- `tracepoint_sys_enter`.
unfoldable pub sys_enter : Task → ℕ → ℕ → Tracer → Tracer
sys_enter t ts id k = record k {
  starts = put t.pid_tgid ts k.starts;
  rb =
      emit
        (λ old. record old {
          timestamp_ns = ts;
          type = 8;
          pid = pid_of t;
          comm = t.comm;
          count = id;
        })
        k.rb;
}

-- What `tracepoint_sys_exit` and the return of `tcp_v4_connect` write.
abbrev pub fill_exit : Task → ℕ → ℕ → ℕ → Event → Event
fill_exit t later type latency old = record old {
  timestamp_ns = later;
  type = type;
  pid = pid_of t;
  comm = t.comm;
  latency_ns = latency;
}

-- `tracepoint_sys_exit`.
unfoldable pub sys_exit : Task → ℕ → ℕ → Tracer → Tracer
sys_exit t now later k = elim (lookup t.pid_tgid k.starts) [
  | none ↦ k
  | some start ↦ record k {
    starts = delete t.pid_tgid k.starts;
    rb = emit (fill_exit t later 8 (sub64 now start)) k.rb;
  }
]

-- `trace_tcp_v4_connect_entry`.
unfoldable pub connect_entry : Task → ℕ → Tracer → Tracer
connect_entry t ts k = record k { starts = put t.pid_tgid ts k.starts }

-- `trace_tcp_v4_connect_exit`.
unfoldable pub connect_exit : Task → ℕ → ℕ → Tracer → Tracer
connect_exit t now later k = elim (lookup t.pid_tgid k.starts) [
  | none ↦ k
  | some start ↦ record k {
    starts = delete t.pid_tgid k.starts;
    rb = emit (fill_exit t later 7 (sub64 now start)) k.rb;
  }
]

-- `trace_tcp_v4_connect`, which runs at the entry too. Both ports are byte-swapped.
abbrev pub fill_connect : Task → ℕ → Sock → Event → Event
fill_connect t now sk old = record old {
  timestamp_ns = now;
  type = 7;
  pid = pid_of t;
  comm = t.comm;
  dst_ip = sk.daddr;
  dst_port = ntohs sk.dport;
  src_ip = sk.rcv_saddr;
  src_port = ntohs sk.num;
}

unfoldable pub trace_connect : Task → ℕ → Sock → Tracer → Tracer
trace_connect t now sk k = record k { rb = emit (fill_connect t now sk) k.rb }
