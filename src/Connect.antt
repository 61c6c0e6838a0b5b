-- ===== src/Connect.antt =====
-- bpf/stb_connect.bpf.c: the two tracepoint handlers of connect(). The map of start times is an
-- association list of at most 1024 entries; the events are what the handlers hand to the perf
-- buffer, in order. The memory behind the user's pointer is the list of the bytes that can be read
-- there. The name and the user of the process, which both handlers copy, are left out.
pub mod Latency
mod Checks
use stb_e_bpf.Base.{
  ℕ, zero, suc, ◌+◌, ◌-◌, ◌*◌, ◌/◌, ◌%◌, ◌^◌, ◌≤◌, ◌<◌, min, max, bit_and, bit_or, bit_xor, ◌≡◌,
  refl, sym, ap, ◌∙◌, ◌≢◌, ◌↔◌, ◌⊎◌, inl, inr, Bool, true, false, not, ◌&&◌, ◌||◌, Option, none,
  some, List, [], ◌∷◌, ◌++◌, map, arith, ltb, leb, ◌==◌, if◌then◌else◌, ==_iff, ltb→lt, Bool-cases,
  Option-cases, ◌>>=◌, length, get_elem?, get_or, set, modify, take, drop, replicate, length-append,
  length-set, length-modify, length-take, length-drop, get_elem?-append, slice-append, slice-behind,
  get_elem?-append_left, length-replicate, slice, slice-some, All, add64, sub64, add32, has_bits,
  be16, be32, le16, le32, u8_mod, u16_mod, u32_mod, u64_mod, codes, strncpy, length-strncpy,
  decimal,
}
use stb_e_bpf.Flow.{ipproto_tcp}

abbrev pub af_inet : ℕ
af_inet = 2

abbrev pub af_inet6 : ℕ
af_inet6 = 10

-- The size of `struct sockaddr_in`, and the capacity of the map.
abbrev pub sockaddr_size : ℕ
sockaddr_size = 16

abbrev pub max_entries : ℕ
max_entries = 1024

pub data EventType : Type 0 where
  connect_enter connect_exit : EventType

-- The fields of `struct connect_event_t` that the handlers fill in.
pub record ConnectEvent : Type 0 where
  pub timestamp_ns : ℕ
  pub pid : ℕ
  pub daddr : ℕ
  pub dport : ℕ
  pub family : ℕ
  pub protocol : ℕ
  pub event_type : EventType
  pub retval : ℕ
  pub latency_us : ℕ

pub record Kernel : Type 0 where
  pub connect_start : List (ℕ × ℕ)
  pub events : List ConnectEvent

-- `bpf_map_lookup_elem`.
unfoldable pub lookup : ℕ → List (ℕ × ℕ) → Option ℕ
lookup key [] = none
lookup key ((k, v) ∷ m) = let rest = lookup key m in if k == key then some v else rest

-- `bpf_map_delete_elem`.
unfoldable pub delete : ℕ → List (ℕ × ℕ) → List (ℕ × ℕ)
delete key [] = []
delete key ((k, v) ∷ m) = let rest = delete key m in if k == key then m else (k, v) ∷ rest

-- The write to a key that the map has.
unfoldable pub replace : ℕ → ℕ → List (ℕ × ℕ) → List (ℕ × ℕ)
replace key value [] = []
replace key value ((k, v) ∷ m) =
    let rest = replace key value m in if k == key then (k, value) ∷ m else (k, v) ∷ rest

-- `bpf_map_update_elem` with BPF_ANY: a full map takes no new key, and the failure goes unnoticed.
unfoldable pub update : ℕ → ℕ → List (ℕ × ℕ) → List (ℕ × ℕ)
update key value m = elim (lookup key m) [
  | some old ↦ replace key value m
  | none ↦ if ltb (length m) max_entries then (key, value) ∷ m else m
]

-- What `read_sockaddr_in` hands back when it returns 0: the family, the address and the port.
pub record Target : Type 0 where
  pub family : ℕ
  pub daddr : ℕ
  pub dport : ℕ

-- `read_sockaddr_in`; `none` is -1. `addr_len` is compared as an unsigned number.
unfoldable pub read_sockaddr_in : List ℕ → ℕ → Option Target
read_sockaddr_in user addr_len = do
  head ← slice user 0 2
  let fam = le16 head 0
  if fam == af_inet && leb sockaddr_size addr_len
      then (slice user 0 sockaddr_size >>= λ addr.
          some (record { family = fam; daddr = le32 addr 4; dport = be16 addr 2 }))
      else if fam == af_inet6
      then some (record { family = fam; daddr = 0; dport = 0 })
      else none

abbrev pub submit : ConnectEvent → Kernel → Kernel
submit event k = record k { events = k.events ++ (event ∷ []) }

abbrev pub enter_event : ℕ → ℕ → Target → ConnectEvent
enter_event pid_tgid ts target = record {
  timestamp_ns = ts;
  pid = pid_tgid / u32_mod;
  daddr = target.daddr;
  dport = target.dport;
  family = target.family;
  protocol = ipproto_tcp;
  event_type = connect_enter;
  retval = 0;
  latency_us = 0;
}

-- `tracepoint__sys_enter_connect`.
unfoldable pub sys_enter_connect : Kernel → ℕ → ℕ → List ℕ → ℕ → Kernel
sys_enter_connect k pid_tgid ts user addr_len =
    if ltb addr_len 2 then k else elim (read_sockaddr_in user addr_len) [
      | none ↦ k
      | some target ↦
          if not (target.family == af_inet)
          then k
          else submit (enter_event pid_tgid ts target)
              (record k { connect_start = update pid_tgid ts k.connect_start })
    ]

abbrev pub exit_event : ℕ → ℕ → ℕ → ℕ → ConnectEvent
exit_event pid_tgid ts ret latency_us = record {
  timestamp_ns = ts;
  pid = pid_tgid / u32_mod;
  daddr = 0;
  dport = 0;
  family = af_inet;
  protocol = ipproto_tcp;
  event_type = connect_exit;
  retval = ret;
  latency_us = latency_us;
}

-- `tracepoint__sys_exit_connect`.
unfoldable pub sys_exit_connect : Kernel → ℕ → ℕ → ℕ → Kernel
sys_exit_connect k pid_tgid ts ret = elim (lookup pid_tgid k.connect_start) [
  | none ↦ submit (exit_event pid_tgid ts ret 0) k
  | some start_ts ↦
      submit (exit_event pid_tgid ts ret (sub64 ts start_ts / 1000))
        (record k { connect_start = delete pid_tgid k.connect_start })
]
