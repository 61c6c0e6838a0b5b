-- ===== src/Trace/Packets.antt =====
-- The packet programs: bpf/network_flow.bpf.c, and the socket filters of bpf/stb_test.bpf.c,
-- bpf/stb_passfilter.bpf.c and bpf/stb_socket_filter.bpf.c.
pub mod Decode
use stb_e_bpf.Base.{
  ℕ, ◌+◌, Option, none, some, List, [], ◌∷◌, ◌++◌, ltb, ◌==◌, if◌then◌else◌, length, slice, be16,
  le16, le32, get_or, not, Bool, false,
}

-- `struct __sk_buff`: the bytes from `data` to `data_end`, and those that only
-- `bpf_skb_load_bytes` reaches.
pub record Skb : Type 0 where
  pub linear : List ℕ
  pub paged : List ℕ

abbrev pub skb_len : Skb → ℕ
skb_len s = length s.linear + length s.paged

-- `struct fe`, without its padding.
pub record Fe : Type 0 where
  pub ts : ℕ
  pub si : ℕ
  pub di : ℕ
  pub by : ℕ
  pub pk : ℕ
  pub sp : ℕ
  pub dp : ℕ
  pub pr : ℕ
  pub dir : ℕ

-- `ex`: the address is in the table `exclude_dest_ips` with a value that is not 0.
unfoldable pub ex : (ℕ → Option ℕ) → ℕ → Bool
ex exclude ip = elim (exclude ip) [ none ↦ false | some v ↦ not (v == 0) ]

-- `bpf_skb_load_bytes`.
abbrev pub load_bytes : Skb → ℕ → ℕ → Option (List ℕ)
load_bytes s offset n = slice (s.linear ++ s.paged) offset n

-- The ports in a transport header of `n` bytes at offset 34, if they can be loaded.
unfoldable pub load_ports : Skb → ℕ → Fe → Fe
load_ports s n ev = elim (load_bytes s 34 n) [
  | none ↦ ev
  | some header ↦ record ev { sp = be16 header 0; dp = be16 header 2 }
]

-- The event of an IPv4 packet, with the direction.
unfoldable pub flow_of : ℕ → Skb → ℕ → Fe
flow_of now s direction =
    let d = s.linear in
    let ev : Fe = record {
      ts = now;
      si = le32 d 26;
      di = le32 d 30;
      by = skb_len s;
      pk = 1;
      sp = 0;
      dp = 0;
      pr = get_or d 23 0;
      dir = direction;
    } in
    if get_or d 23 0 == 6
    then load_ports s 20 ev
    else if get_or d 23 0 == 17
    then load_ports s 8 ev
    else ev

-- `f1`: the event that it gives to the perf buffer, if any.
unfoldable pub f1 : (ℕ → Option ℕ) → ℕ → Skb → Option Fe
f1 exclude now s =
    if ltb (length s.linear) 14
    then none
    else if not (le16 s.linear 12 == 8)
    then none
    else if ltb (length s.linear) 34
    then none
    else if ex exclude (le32 s.linear 30)
    then none
    else some (flow_of now s 0)

-- `f2`.
unfoldable pub f2 : (ℕ → Option ℕ) → ℕ → Skb → Option Fe
f2 exclude now s =
    if ltb (length s.linear) 14
    then none
    else if not (le16 s.linear 12 == 8)
    then none
    else if ltb (length s.linear) 34
    then none
    else if ex exclude (le32 s.linear 26)
    then none
    else some (flow_of now s 1)

-- `stb_test_filter`: how much of the packet is kept.
unfoldable pub stb_test_filter : Skb → ℕ
stb_test_filter s = if ltb (length s.linear) 14 then 0 else skb_len s

-- `stb_passfilter` and `stb_packet_filter`.
unfoldable pub stb_passfilter : Skb → ℕ
stb_passfilter s = skb_len s

unfoldable pub stb_packet_filter : Skb → ℕ
stb_packet_filter s = skb_len s
