-- ===== src/Anomaly/Verdict.antt =====
-- What the return value of `anomaly_check_flow` says.
use stb_e_bpf.Base.{ℕ, ◌+◌, ◌≤◌, ◌≡◌, Bool, true, false, arith, ◌==◌, if◌then◌else◌}
use stb_e_bpf.Flow.{FlowEvent}
use stb_e_bpf.Anomaly.{
  AnomalyDetector, anomaly_none, anomaly_spike, anomaly_scan, anomaly_drop, find_src, find_bw,
  check_scan, check_spike, check_rst, mark_spike, mark_scan, mark_drop, anomaly_check_flow,
}

abbrev hit : ℕ → ℕ → ℕ
hit verdict kind = if verdict == kind then 1 else 0

-- The verdict, the event's mark and the counters agree, and what the event counts is untouched.
pub record Agrees (ad ad' : AnomalyDetector) (flow flow' : FlowEvent) (verdict : ℕ) : Type 0 where
  pub kind : verdict ≤ 3
  pub marked : flow'.anomaly ≡ (if verdict == anomaly_none then flow.anomaly else verdict)
  pub spikes : ad'.spike_count ≡ ad.spike_count + hit verdict anomaly_spike
  pub scans : ad'.scan_count ≡ ad.scan_count + hit verdict anomaly_scan
  pub drops : ad'.drop_count ≡ ad.drop_count + hit verdict anomaly_drop
  pub bytes : flow'.bytes ≡ flow.bytes
  pub packets : flow'.packets ≡ flow.packets
  pub source : flow'.src_ip ≡ flow.src_ip
  pub port : flow'.dst_port ≡ flow.dst_port

-- Neither search touches a counter.
record Same (ad ad' : AnomalyDetector) : Type 0 where
  spikes : ad'.spike_count ≡ ad.spike_count
  scans : ad'.scan_count ≡ ad.scan_count
  drops : ad'.drop_count ≡ ad.drop_count

check_scan-Same :
    (ad : AnomalyDetector) (flow : FlowEvent) (ts : ℕ) → Same ad (check_scan ad flow ts).1
unfolding check_scan find_src
check_scan-Same ad flow ts = ground arith

abbrev SpikeCase : AnomalyDetector → Bool × AnomalyDetector × FlowEvent → FlowEvent → Type 0
SpikeCase ad (true, ad', flow') flow = Agrees ad ad' flow flow' anomaly_spike
SpikeCase ad (false, ad', flow') flow =
    Agrees ad ad' flow flow' anomaly_none × (flow'.tcp_flags ≡ flow.tcp_flags)

check_spike-case :
    (ad : AnomalyDetector) (flow : FlowEvent) (ts : ℕ) → SpikeCase ad (check_spike ad flow ts) flow
unfolding check_spike find_bw mark_spike
check_spike-case ad flow ts = ground arith

-- On every branch: the verdict is one of the four kinds, the event is marked with it (or keeps its
-- mark when the verdict is none), exactly the counter of that kind goes up by one, and the event's
-- bytes, packets, source and port stay.
pub anomaly_check_flow-Agrees :
    (ad : AnomalyDetector) (flow : FlowEvent) (ts : ℕ)
    → let (verdict, ad', flow') = anomaly_check_flow ad flow ts in Agrees ad ad' flow flow' verdict
unfolding anomaly_check_flow check_rst mark_scan mark_drop
anomaly_check_flow-Agrees ad flow ts =
    ground (arith, check_scan-Same ad flow ts, check_spike-case (check_scan ad flow ts).1 flow ts)
