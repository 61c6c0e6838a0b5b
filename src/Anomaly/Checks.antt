-- ===== src/Anomaly/Checks.antt =====
-- The detector on concrete packets.
use stb_e_bpf.Base.{◌+◌, ◌%◌, ◌≡◌, refl, true, false, some, [], ◌∷◌, arith, has_bits, u64_mod}
use stb_e_bpf.Flow.{FlowEvent, key_eq, zero_event}
use stb_e_bpf.Anomaly.{
  SrcStats, BwRecord, AnomalyDetector, anomaly_detector_create, port_seen, bandwidth, bw_key,
  anomaly_check_flow, check_scan, find_src, index_src, check_spike, find_bw, index_bw, check_rst,
}
use stb_e_bpf.Anomaly.Verdict.{Agrees, anomaly_check_flow-Agrees}
use stb_e_bpf.Anomaly.Ports.{source_of, check_flows, check_flows-Sweep}
use stb_e_bpf.Anomaly.Bandwidth.{bw_of, stops, observe, total_bytes, observe-accumulates}

abbrev flow : FlowEvent
flow = record zero_event {
  src_ip = 9;
  dst_ip = 5;
  src_port = 40000;
  dst_port = 443;
  bytes = 60;
  packets = 1;
}

abbrev next_flow : FlowEvent
next_flow = record flow { dst_port = 444 }

abbrev source : SrcStats
source = record { src_ip = 9; unique_ports = 22 ∷ []; last_seen_ns = 3; active = true }

abbrev tracked : BwRecord
tracked = record { key = bw_key flow; last_bytes = 40; last_time_ns = 1000; active = true }

-- A detector that knows one source and one flow, with a threshold of two ports.
abbrev detector : AnomalyDetector
detector = record anomaly_detector_create {
  sources = source ∷ [];
  bw_records = tracked ∷ [];
  scan_port_threshold = 2;
}

-- The same with the configured threshold.
abbrev calm_detector : AnomalyDetector
calm_detector = record detector { scan_port_threshold = 20 }

source_known : source_of 9 detector.sources ≡ some source
unfolding source_of
source_known = refl

flow_known : bw_of (bw_key flow) calm_detector.bw_records ≡ some tracked
unfolding bw_of key_eq
flow_known = refl

port_new : port_seen 443 (22 ∷ []) ≡ false
unfolding port_seen
port_new = refl

next_port_new : port_seen 444 (22 ∷ 443 ∷ []) ≡ false
unfolding port_seen
next_port_new = refl

quiet : stops (anomaly_check_flow calm_detector flow 2_000_000_000).0 ≡ false
unfolding anomaly_check_flow check_scan find_src index_src port_seen check_spike find_bw index_bw
    key_eq bandwidth check_rst has_bits
quiet = refl

anomaly_check_flow-Agrees_example :
    let (verdict, ad', flow') = anomaly_check_flow detector flow 7 in
    Agrees detector ad' flow flow' verdict
anomaly_check_flow-Agrees_example = anomaly_check_flow-Agrees detector flow 7

check_flows-Sweep_example :
    (check_flows detector ((flow, 7) ∷ (next_flow, 8) ∷ [])).scan_count + 0 ≡ 2
check_flows-Sweep_example =
    check_flows-Sweep detector ((flow, 7) ∷ (next_flow, 8) ∷ []) 9 source source_known
      (refl, port_new, omega arith, (refl, next_port_new, omega arith, tt)) (omega arith)
      (omega arith)

observe-accumulates_example :
    (b' : BwRecord) × (bw_of
        (bw_key flow)
        (observe calm_detector ((flow, 2_000_000_000) ∷ [])).bw_records
      ≡ some b')
    × (b'.last_bytes ≡ (40 + total_bytes ((flow, 2_000_000_000) ∷ [])) % u64_mod)
observe-accumulates_example =
    observe-accumulates (bw_key flow) calm_detector ((flow, 2_000_000_000) ∷ []) tracked flow_known
      (refl, quiet, tt) (omega arith)
