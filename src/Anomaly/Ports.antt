-- ===== src/Anomaly/Ports.antt =====
-- The detection of port scans.
use stb_e_bpf.Base.{
  ℕ, zero, suc, ◌+◌, ◌-◌, ◌≤◌, ◌<◌, ◌≡◌, refl, inl, inr, false, ◌&&◌, Option, none, some, List, [],
  ◌∷◌, ◌++◌, arith, leb, ◌==◌, if◌then◌else◌, Bool-cases, length, get_or, modify, length-append,
}
use stb_e_bpf.Flow.{FlowEvent}
use stb_e_bpf.Anomaly.{
  AnomalyDetector, SrcStats, no_source, index_src, find_src, find_bw, port_seen, check_scan,
  check_spike, check_rst, anomaly_check_flow,
}

-- The statistics of a source, if it is tracked.
unfoldable pub source_of : ℕ → List SrcStats → Option SrcStats
source_of ip [] = none
source_of ip (s ∷ ss) = if s.active && s.src_ip == ip then some s else source_of ip ss

index_src-some :
    (ip : ℕ) (ss : List SrcStats) (s : SrcStats)
    → source_of ip ss ≡ some s
    → (i : ℕ) × (index_src ip ss ≡ some i) × (get_or ss i no_source ≡ s)
unfolding index_src source_of
index_src-some ip [] s h = absurd (ground arith)
index_src-some ip (t ∷ ss) s h = elim (Bool-cases (t.active && t.src_ip == ip)) [
  | inl hit ↦ (0, rw hit refl, ground arith)
  | inr miss ↦
      let (i, e, g) = index_src-some ip ss s (ground arith) in (suc i, rw (miss, e) refl, g)
]

source_of-modify :
    (ip : ℕ) (ss : List SrcStats) (i : ℕ) (g : SrcStats → SrcStats)
    → ((s : SrcStats) → ((g s).active ≡ s.active) × ((g s).src_ip ≡ s.src_ip))
    → index_src ip ss ≡ some i
    → source_of ip (modify ss i g) ≡ some (g (get_or ss i no_source))
unfolding index_src source_of
source_of-modify ip [] i g keep h = absurd (ground arith)
source_of-modify ip (s ∷ ss) zero g keep h = ground (arith, keep s)
source_of-modify ip (s ∷ ss) (suc i) g keep h = ground (arith, source_of-modify ip ss i g keep)

-- A check touches neither the thresholds nor, in its second and third part, the sources.
check_spike-sources :
    (ad : AnomalyDetector) (flow : FlowEvent) (ts : ℕ)
    → let (spike, ad', flow') = check_spike ad flow ts in
      (ad'.sources ≡ ad.sources)
      × (ad'.scan_port_threshold ≡ ad.scan_port_threshold)
      × (ad'.scan_count ≡ ad.scan_count)
unfolding check_spike find_bw
check_spike-sources ad flow ts = ground arith

module _ (ad : AnomalyDetector) (flow : FlowEvent) (ts : ℕ) (s : SrcStats) where
  check_scan-new :
      source_of flow.src_ip ad.sources ≡ some s
      → port_seen flow.dst_port s.unique_ports ≡ false
      → 0 < flow.dst_port
      → length s.unique_ports < 256
      → ((check_scan ad flow ts).0 ≡ leb ad.scan_port_threshold (length s.unique_ports + 1))
        × (source_of flow.src_ip (check_scan ad flow ts).1.sources
            ≡ some (record s {
              unique_ports = s.unique_ports ++ (flow.dst_port ∷ []);
              last_seen_ns = ts;
            }))
        × ((check_scan ad flow ts).1.scan_port_threshold ≡ ad.scan_port_threshold)
        × ((check_scan ad flow ts).1.scan_count ≡ ad.scan_count)
  unfolding check_scan find_src
  check_scan-new v new pos room =
      let (i, e, g) = index_src-some flow.src_ip ad.sources s v in
      let put : SrcStats → SrcStats = λ t. record t {
        unique_ports = s.unique_ports ++ (flow.dst_port ∷ []);
        last_seen_ns = ts;
      } in
      let kept = source_of-modify flow.src_ip ad.sources i put (λ t. (refl, refl)) e in
      let more = length-append s.unique_ports (flow.dst_port ∷ []) in
      (ground arith, ground arith, ground arith, ground arith)

  -- A packet of a tracked source to a port that the source has not used, while its port list has
  -- room: it is reported as a scan exactly if the list reaches the threshold with it, and the port
  -- joins the list in either case.
  pub check_flow-new_port :
      source_of flow.src_ip ad.sources ≡ some s
      → port_seen flow.dst_port s.unique_ports ≡ false
      → 0 < flow.dst_port
      → length s.unique_ports < 256
      → let (verdict, ad', flow') = anomaly_check_flow ad flow ts in
        (source_of flow.src_ip ad'.sources
          ≡ some (record s {
            unique_ports = s.unique_ports ++ (flow.dst_port ∷ []);
            last_seen_ns = ts;
          }))
        × (ad'.scan_port_threshold ≡ ad.scan_port_threshold)
        × (ad'.scan_count
            ≡ ad.scan_count
              + (if leb ad.scan_port_threshold (length s.unique_ports + 1) then 1 else 0))
  unfolding anomaly_check_flow check_rst
  check_flow-new_port v new pos room =
      ground (
        arith,
        check_scan-new v new pos room,
        check_spike-sources (check_scan ad flow ts).1 flow ts,
      )

-- The checks of a list of packets, in turn.
unfoldable pub check_flows : AnomalyDetector → List (FlowEvent × ℕ) → AnomalyDetector
check_flows ad [] = ad
check_flows ad ((flow, ts) ∷ rest) = check_flows (anomaly_check_flow ad flow ts).1 rest

-- Packets of one source, each to a port that is neither zero nor used before.
abbrev pub Sweep : ℕ → List ℕ → List (FlowEvent × ℕ) → Type 0
Sweep ip ports [] = Unit
Sweep ip ports ((flow, ts) ∷ rest) =
    (flow.src_ip ≡ ip)
    × (port_seen flow.dst_port ports ≡ false)
    × (0 < flow.dst_port)
    × Sweep ip (ports ++ (flow.dst_port ∷ [])) rest

-- A source with m known ports that goes through n new ports, with m + n at most 256, is reported
-- once for every port from the threshold-th on, whatever else its packets are reported as.
pub check_flows-Sweep :
    (ad : AnomalyDetector) (packets : List (FlowEvent × ℕ)) (ip : ℕ) (s : SrcStats)
    → source_of ip ad.sources ≡ some s
    → Sweep ip s.unique_ports packets
    → length s.unique_ports + length packets ≤ 256
    → 0 < ad.scan_port_threshold
    → (check_flows ad packets).scan_count + (length s.unique_ports - (ad.scan_port_threshold - 1))
      ≡ ad.scan_count + (length s.unique_ports + length packets - (ad.scan_port_threshold - 1))
unfolding check_flows
check_flows-Sweep ad [] ip s v sweep room pos = omega arith
check_flows-Sweep ad ((flow, ts) ∷ rest) ip s v sweep room pos =
    let (same, new, nonzero, sweep') = sweep in
    let here : source_of flow.src_ip ad.sources ≡ some s = rw same v in
    let (v', threshold, count) = check_flow-new_port ad flow ts s here new nonzero (omega arith) in
    let s' : SrcStats = record s {
      unique_ports = s.unique_ports ++ (flow.dst_port ∷ []);
      last_seen_ns = ts;
    } in
    let v'' : source_of ip (anomaly_check_flow ad flow ts).1.sources ≡ some s' = rw (← same) v' in
    let ih =
      check_flows-Sweep (anomaly_check_flow ad flow ts).1 rest ip s' v'' sweep'
        (omega (arith, length-append s.unique_ports (flow.dst_port ∷ []))) (omega arith) in
    ground (arith, ih, length-append s.unique_ports (flow.dst_port ∷ []))
