-- ===== src/Anomaly.antt =====
-- src/anomaly.c: port scans, traffic spikes and resets. An array with a counter of used entries is
-- the list of those entries: `src_count`, `bw_count` and `port_count` are lengths. The clock
-- reading of a call is an argument.
pub mod Ports
pub mod Verdict
pub mod Bandwidth
mod Checks
use stb_e_bpf.Base.{
  ℕ, zero, suc, ◌+◌, ◌-◌, ◌*◌, ◌/◌, ◌%◌, ◌^◌, ◌≤◌, ◌<◌, min, bit_and, bit_or, bit_xor, ◌≡◌, refl,
  sym, ap, ◌∙◌, ◌≢◌, ◌↔◌, ◌⊎◌, inl, inr, Bool, true, false, not, ◌&&◌, ◌||◌, Option, none, some,
  List, [], ◌∷◌, ◌++◌, map, arith, ltb, leb, ◌==◌, if◌then◌else◌, ==_iff, ltb→lt, Bool-cases,
  Option-cases, ◌>>=◌, length, get_elem?, get_or, set, modify, take, drop, replicate, length-append,
  length-set, length-modify, length-take, length-drop, length-replicate, slice, slice-some, All,
  add64, sub64, add32, has_bits, be16, be32, le16, le32, u32_mod, u64_mod, codes, strncpy,
  length-strncpy, decimal,
}
use stb_e_bpf.Flow.{FlowKey, FlowEvent, key_eq, tcp_flag_rst}

abbrev pub anomaly_none : ℕ
anomaly_none = 0

abbrev pub anomaly_spike : ℕ
anomaly_spike = 1

abbrev pub anomaly_scan : ℕ
anomaly_scan = 2

abbrev pub anomaly_drop : ℕ
anomaly_drop = 3

-- `struct src_stats`, without `total_bytes`, which nothing uses.
pub record SrcStats : Type 0 where
  pub src_ip : ℕ
  pub unique_ports : List ℕ
  pub last_seen_ns : ℕ
  pub active : Bool

-- `struct bw_record`, without the `prev_` fields, which nothing uses.
pub record BwRecord : Type 0 where
  pub key : FlowKey
  pub last_bytes : ℕ
  pub last_time_ns : ℕ
  pub active : Bool

-- `struct anomaly_detector`.
pub record AnomalyDetector : Type 0 where
  pub sources : List SrcStats
  pub bw_records : List BwRecord
  pub spike_threshold_bps : ℕ
  pub scan_port_threshold : ℕ
  pub spike_count : ℕ
  pub scan_count : ℕ
  pub drop_count : ℕ

-- `anomaly_detector_create`, when its allocation succeeds.
abbrev pub anomaly_detector_create : AnomalyDetector
anomaly_detector_create = record {
  sources = [];
  bw_records = [];
  spike_threshold_bps = 100_000_000;
  scan_port_threshold = 20;
  spike_count = 0;
  scan_count = 0;
  drop_count = 0;
}

abbrev pub next? : Option ℕ → Option ℕ
next? none = none
next? (some i) = some (suc i)

-- The loop of `find_src`.
unfoldable pub index_src : ℕ → List SrcStats → Option ℕ
index_src ip [] = none
index_src ip (s ∷ ss) = if s.active && s.src_ip == ip then some 0 else next? (index_src ip ss)

-- `find_src`: the index stands for the pointer.
unfoldable pub find_src : AnomalyDetector → ℕ → Option ℕ × AnomalyDetector
find_src ad ip = elim (index_src ip ad.sources) [
  | some i ↦ (some i, ad)
  | none ↦
      if ltb (length ad.sources) 1024
      then (
        some (length ad.sources),
        record ad {
          sources =
              ad.sources
              ++ (record { src_ip = ip; unique_ports = []; last_seen_ns = 0; active = true } ∷ []);
        },
      )
      else (none, ad)
]

-- `port_seen`.
unfoldable pub port_seen : ℕ → List ℕ → Bool
port_seen port [] = false
port_seen port (p ∷ ps) = p == port || port_seen port ps

-- The loop of `find_bw`.
unfoldable pub index_bw : FlowKey → List BwRecord → Option ℕ
index_bw key [] = none
index_bw key (b ∷ bs) = if b.active && key_eq b.key key then some 0 else next? (index_bw key bs)

-- `find_bw`.
unfoldable pub find_bw : AnomalyDetector → FlowKey → Option ℕ × AnomalyDetector
find_bw ad key = elim (index_bw key ad.bw_records) [
  | some i ↦ (some i, ad)
  | none ↦
      if ltb (length ad.bw_records) 2048
      then (
        some (length ad.bw_records),
        record ad {
          bw_records =
              ad.bw_records
              ++ (record { key = key; last_bytes = 0; last_time_ns = 0; active = true } ∷ []);
        },
      )
      else (none, ad)
]

abbrev pub no_source : SrcStats
no_source = record { src_ip = 0; unique_ports = []; last_seen_ns = 0; active = false }

abbrev pub no_bw : BwRecord
no_bw = record {
  key = record { src_ip = 0; dst_ip = 0; src_port = 0; dst_port = 0; protocol = 0; ip_version = 0 };
  last_bytes = 0;
  last_time_ns = 0;
  active = false;
}

-- The port list of a source after one more port.
abbrev pub add_port : List ℕ → ℕ → List ℕ
add_port ports port = if ltb (length ports) 256 then ports ++ (port ∷ []) else ports

-- Part 1 of `anomaly_check_flow`: whether a scan is found, and the new state.
unfoldable pub check_scan : AnomalyDetector → FlowEvent → ℕ → Bool × AnomalyDetector
check_scan ad flow ts =
    let (found, ad') = find_src ad flow.src_ip in
    elim found [
      | none ↦ (false, ad')
      | some i ↦
          let ports = (get_or ad'.sources i no_source).unique_ports in
          let ports' = add_port ports flow.dst_port in
          if not (port_seen flow.dst_port ports) && ltb 0 flow.dst_port
          then (
            leb ad'.scan_port_threshold (length ports'),
            record ad' {
              sources =
                  modify ad'.sources i (λ s. record s { unique_ports = ports'; last_seen_ns = ts });
            },
          )
          else (false, ad')
    ]

-- The bandwidth that a record and a time give, if both tests pass.
unfoldable pub bandwidth : BwRecord → ℕ → Option ℕ
bandwidth bw ts =
    let dt_ns = sub64 ts bw.last_time_ns in
    if ltb 0 dt_ns && ltb 0 bw.last_time_ns && ltb 0 bw.last_bytes
    then some (bw.last_bytes * 8 * 1_000_000_000 % u64_mod / dt_ns)
    else none

-- What a packet that is no spike leaves in its record.
abbrev pub count_bytes : ℕ → ℕ → BwRecord → BwRecord
count_bytes bytes ts bw = record bw { last_bytes = add64 bw.last_bytes bytes; last_time_ns = ts }

abbrev pub bw_key : FlowEvent → FlowKey
bw_key flow = record {
  src_ip = flow.src_ip;
  dst_ip = flow.dst_ip;
  src_port = flow.src_port;
  dst_port = flow.dst_port;
  protocol = 0;
  ip_version = 0;
}

unfoldable pub mark_spike : FlowEvent → ℕ → FlowEvent
mark_spike flow bps = record flow {
  bandwidth_bps = bps;
  anomaly = anomaly_spike;
  details = strncpy 128 (codes "bandwidth spike: " ++ (decimal bps ++ codes " bps"));
  tags = strncpy 64 (codes "anomaly,spike");
}

-- Part 2: whether a spike is found, the new state and the event.
unfoldable pub check_spike : AnomalyDetector → FlowEvent → ℕ → Bool × AnomalyDetector × FlowEvent
check_spike ad flow ts =
    let (found, ad') = find_bw ad (bw_key flow) in
    elim found [
      | none ↦ (false, ad', flow)
      | some i ↦
          let counted : AnomalyDetector = record ad' {
            bw_records = modify ad'.bw_records i (count_bytes flow.bytes ts);
          } in
          elim (bandwidth (get_or ad'.bw_records i no_bw) ts) [
            | none ↦ (false, counted, flow)
            | some bps ↦
                if ltb ad'.spike_threshold_bps bps
                then (true, record ad' { spike_count = ad'.spike_count + 1 }, mark_spike flow bps)
                else (false, counted, record flow { bandwidth_bps = bps })
          ]
    ]

unfoldable pub mark_scan : FlowEvent → FlowEvent
mark_scan flow = record flow {
  anomaly = anomaly_scan;
  tags = strncpy 64 (codes "anomaly,port_scan");
}

unfoldable pub mark_drop : FlowEvent → FlowEvent
mark_drop flow = record flow { anomaly = anomaly_drop; tags = strncpy 64 (codes "anomaly,rst") }

-- Part 3.
unfoldable pub check_rst : AnomalyDetector → FlowEvent → ℕ × AnomalyDetector × FlowEvent
check_rst ad flow =
    if has_bits flow.tcp_flags tcp_flag_rst
    then (anomaly_drop, record ad { drop_count = ad.drop_count + 1 }, mark_drop flow)
    else (anomaly_none, ad, flow)

-- `anomaly_check_flow`: the return value, the detector and the event.
unfoldable pub anomaly_check_flow :
    AnomalyDetector → FlowEvent → ℕ → ℕ × AnomalyDetector × FlowEvent
anomaly_check_flow ad flow ts =
    let (scan, ad1) = check_scan ad flow ts in
    let (spike, ad2, flow2) = check_spike ad1 flow ts in
    if scan
    then (anomaly_scan, record ad1 { scan_count = ad1.scan_count + 1 }, mark_scan flow)
    else if spike
    then (anomaly_spike, ad2, flow2)
    else check_rst ad2 flow2
