-- ===== src/Trace/Points.antt =====
-- The programs that report one point each: bpf/mem_trace.bpf.c, bpf/sched_trace.bpf.c,
-- bpf/security_trace.bpf.c, bpf/file_open.bpf.c and bpf/process_exec.bpf.c. A string in kernel or
-- user memory is the list of the bytes before its terminator, or cannot be read.
pub mod Stale
use stb_e_bpf.Base.{
  ℕ, ◌+◌, ◌-◌, min, Option, none, some, List, [], ◌∷◌, ◌++◌, ltb, ◌==◌, if◌then◌else◌, length, take,
  drop, sub64, replicate,
}
use stb_e_bpf.Trace.{Event, Ring, Task, data_len, no_data, pid_of, emit}

-- `bpf_probe_read_kernel_str` and `bpf_probe_read_user_str` into an array: the string, cut off to
-- leave room for its terminator; a read that fails clears the array.
unfoldable pub read_str : Option (List ℕ) → List ℕ → List ℕ
read_str none old = replicate (length old) 0
read_str (some s) old =
    let n = min (length s) (length old - 1) in take n s ++ (0 ∷ drop (n + 1) old)

-- `trace_kmalloc`; `ptr` is what the register for a return value holds at the entry.
unfoldable pub trace_kmalloc : Task → ℕ → ℕ → ℕ → Ring → Ring
trace_kmalloc t now ptr size rb =
    if ptr == 0
    then rb
    else emit
        (λ old. record old {
          timestamp_ns = now;
          type = 14;
          pid = pid_of t;
          comm = t.comm;
          bytes = size;
          packets = 0;
          latency_ns = 0;
          count = 1;
          data_bytes = no_data;
        })
        rb

-- `trace_kfree`.
unfoldable pub trace_kfree : Task → ℕ → Ring → Ring
trace_kfree t now = emit λ old. record old {
  timestamp_ns = now;
  type = 15;
  pid = pid_of t;
  comm = t.comm;
  bytes = 0;
  packets = 0;
  latency_ns = 0;
  count = 1;
  data_bytes = no_data;
}

-- `tracepoint_sched_switch`, with the fields of its context; its type is EVENT_TYPE_MAX, which is
-- 10. The state goes to the latency.
unfoldable pub sched_switch : ℕ → ℕ → ℕ → ℕ → List ℕ → Ring → Ring
sched_switch now prev_pid next_pid prev_state prev_comm = emit λ old. record old {
  timestamp_ns = now;
  type = 10;
  pid = prev_pid;
  ppid = next_pid;
  latency_ns = prev_state;
  bytes = 0;
  packets = 0;
  count = 0;
  comm = prev_comm;
  data_bytes = no_data;
}

-- `tracepoint_sched_wakeup`.
unfoldable pub sched_wakeup : ℕ → ℕ → List ℕ → Ring → Ring
sched_wakeup now woken comm = emit λ old. record old {
  timestamp_ns = now;
  type = 13;
  pid = woken;
  ppid = 0;
  latency_ns = 0;
  bytes = 0;
  packets = 0;
  count = 0;
  comm = comm;
  data_bytes = no_data;
}

-- `trace_cap_capable`.
unfoldable pub trace_cap_capable : Task → ℕ → ℕ → ℕ → Ring → Ring
trace_cap_capable t now capability opt = emit λ old. record old {
  timestamp_ns = now;
  type = 18;
  pid = pid_of t;
  comm = t.comm;
  count = capability;
  latency_ns = opt;
  bytes = 0;
  packets = 0;
  data_bytes = no_data;
}

-- `trace_security_file_open`.
unfoldable pub security_file_open : Task → ℕ → Option (List ℕ) → Ring → Ring
security_file_open t now name = emit λ old. record old {
  timestamp_ns = now;
  type = 19;
  pid = pid_of t;
  comm = t.comm;
  bytes = 0;
  packets = 0;
  data_bytes = read_str name old.data_bytes;
}

-- `trace_load_module`.
unfoldable pub load_module : Task → ℕ → Ring → Ring
load_module t now = emit λ old. record old {
  timestamp_ns = now;
  type = 20;
  pid = pid_of t;
  comm = t.comm;
  bytes = 0;
  packets = 0;
  data_bytes = no_data;
}

-- `trace_do_filp_open`: the array is cleared before the name is read.
unfoldable pub do_filp_open : Task → ℕ → Option (List ℕ) → Ring → Ring
do_filp_open t now fname = emit λ old. record old {
  timestamp_ns = now;
  type = 6;
  pid = pid_of t;
  ppid = 0;
  comm = t.comm;
  data_bytes = read_str fname no_data;
}

-- `trace_vfs_write`.
unfoldable pub vfs_write : Task → ℕ → Ring → Ring
vfs_write t now = emit λ old. record old {
  timestamp_ns = now;
  type = 6;
  pid = pid_of t;
  comm = t.comm;
  data_bytes = b'W' ∷ b'R' ∷ b'I' ∷ b'T' ∷ b'E' ∷ 0 ∷ drop 6 no_data;
}

-- `tracepoint_sched_process_exec`: the arguments from `arg_start` to `arg_end`, if there are any.
unfoldable pub process_exec : Task → ℕ → ℕ → ℕ → ℕ → ℕ → Option (List ℕ) → Ring → Ring
process_exec t now ctx_pid parent arg_start arg_end args = emit λ old. record old {
  timestamp_ns = now;
  type = 4;
  pid = ctx_pid;
  ppid = parent;
  comm = t.comm;
  data_bytes =
      if ltb 0 (min (sub64 arg_end arg_start) (data_len - 1))
      then read_str args old.data_bytes
      else old.data_bytes;
}

-- `tracepoint_sched_process_exit`.
unfoldable pub process_exit : Task → ℕ → ℕ → ℕ → Ring → Ring
process_exit t now ctx_pid parent =
    emit λ old. record old {
      timestamp_ns = now;
      type = 5;
      pid = ctx_pid;
      ppid = parent;
      comm = t.comm;
    }
