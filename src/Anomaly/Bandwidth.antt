-- ===== src/Anomaly/Bandwidth.antt =====
-- What the spike detection measures.
use stb_e_bpf.Base.{
  ℕ, zero, suc, ◌+◌, ◌%◌, ◌<◌, ◌≡◌, refl, inl, inr, Bool, false, not, ◌&&◌, ◌||◌, Option, none,
  some, List, [], ◌∷◌, arith, ◌==◌, if◌then◌else◌, Bool-cases, get_or, modify, u64_mod,
}
use stb_e_bpf.Flow.{FlowEvent, FlowKey, key_eq}
use stb_e_bpf.Anomaly.{
  AnomalyDetector, BwRecord, no_bw, index_bw, find_src, find_bw, bw_key, count_bytes, bandwidth,
  check_scan, check_spike, check_rst, mark_drop, anomaly_none, anomaly_drop, anomaly_check_flow,
}

-- The bandwidth record of a flow, if it is tracked.
unfoldable pub bw_of : FlowKey → List BwRecord → Option BwRecord
bw_of key [] = none
bw_of key (b ∷ bs) = if b.active && key_eq b.key key then some b else bw_of key bs

index_bw-some :
    (key : FlowKey) (bs : List BwRecord) (b : BwRecord)
    → bw_of key bs ≡ some b
    → (i : ℕ) × (index_bw key bs ≡ some i) × (get_or bs i no_bw ≡ b)
unfolding index_bw bw_of
index_bw-some key [] b h = absurd (ground arith)
index_bw-some key (c ∷ bs) b h = elim (Bool-cases (c.active && key_eq c.key key)) [
  | inl hit ↦ (0, rw hit refl, ground arith)
  | inr miss ↦
      let (i, e, g) = index_bw-some key bs b (ground arith) in (suc i, rw (miss, e) refl, g)
]

bw_of-modify :
    (key : FlowKey) (bs : List BwRecord) (i bytes ts : ℕ)
    → index_bw key bs ≡ some i
    → bw_of key (modify bs i (count_bytes bytes ts))
      ≡ some (count_bytes bytes ts (get_or bs i no_bw))
unfolding index_bw bw_of
bw_of-modify key [] i bytes ts h = absurd (ground arith)
bw_of-modify key (b ∷ bs) zero bytes ts h = ground arith
bw_of-modify key (b ∷ bs) (suc i) bytes ts h = ground (arith, bw_of-modify key bs i bytes ts)

check_scan-records :
    (ad : AnomalyDetector) (flow : FlowEvent) (ts : ℕ)
    → ((check_scan ad flow ts).1.bw_records ≡ ad.bw_records)
      × ((check_scan ad flow ts).1.spike_threshold_bps ≡ ad.spike_threshold_bps)
unfolding check_scan find_src
check_scan-records ad flow ts = ground arith

-- The verdict stops a check before the record is written.
abbrev pub stops : ℕ → Bool
stops verdict = not (verdict == anomaly_none || verdict == anomaly_drop)

check_spike-tracked :
    (ad : AnomalyDetector) (flow : FlowEvent) (ts : ℕ) (b : BwRecord)
    → bw_of (bw_key flow) ad.bw_records ≡ some b
    → (check_spike ad flow ts).0 ≡ false
    → (bw_of (bw_key flow) (check_spike ad flow ts).1.bw_records
        ≡ some (count_bytes flow.bytes ts b))
      × ((check_spike ad flow ts).2
          ≡ elim (bandwidth b ts) [ none ↦ flow | some bps ↦ record flow { bandwidth_bps = bps } ])
unfolding check_spike find_bw
check_spike-tracked ad flow ts b v calm =
    let (i, e, g) = index_bw-some (bw_key flow) ad.bw_records b v in
    let kept = bw_of-modify (bw_key flow) ad.bw_records i flow.bytes ts e in
    (ground arith, ground arith)

calm_parts :
    (ad : AnomalyDetector) (flow : FlowEvent) (ts : ℕ)
    → stops (anomaly_check_flow ad flow ts).0 ≡ false
    → ((check_scan ad flow ts).0 ≡ false)
      × ((check_spike (check_scan ad flow ts).1 flow ts).0 ≡ false)
unfolding anomaly_check_flow check_rst
calm_parts ad flow ts h = ground arith

-- A packet of a tracked flow that is reported neither as a scan nor as a spike: its bytes join
-- those of the record, its time replaces the record's, and the bandwidth that the event gets is
-- eight times all the bytes of the record before, divided by the time since its last packet.
pub check_flow-bandwidth :
    (ad : AnomalyDetector) (flow : FlowEvent) (ts : ℕ) (b : BwRecord)
    → bw_of (bw_key flow) ad.bw_records ≡ some b
    → stops (anomaly_check_flow ad flow ts).0 ≡ false
    → let (verdict, ad', flow') = anomaly_check_flow ad flow ts in
      (bw_of (bw_key flow) ad'.bw_records ≡ some (count_bytes flow.bytes ts b))
      × (flow'.bandwidth_bps ≡ elim (bandwidth b ts) [ none ↦ flow.bandwidth_bps | some bps ↦ bps ])
unfolding anomaly_check_flow check_rst mark_drop
check_flow-bandwidth ad flow ts b v h =
    let (scan, spike) = calm_parts ad flow ts h in
    let (same, _) = check_scan-records ad flow ts in
    let ad1 = (check_scan ad flow ts).1 in
    let (kept, event) = check_spike-tracked ad1 flow ts b (ground arith) spike in
    (ground arith, ground arith)

-- Checks of packets of one flow, in turn, none of which is reported as a scan or a spike.
abbrev pub Quiet : FlowKey → AnomalyDetector → List (FlowEvent × ℕ) → Type 0
Quiet key ad [] = Unit
Quiet key ad ((flow, ts) ∷ rest) =
    (bw_key flow ≡ key)
    × (stops (anomaly_check_flow ad flow ts).0 ≡ false)
    × Quiet key (anomaly_check_flow ad flow ts).1 rest

unfoldable pub observe : AnomalyDetector → List (FlowEvent × ℕ) → AnomalyDetector
observe ad [] = ad
observe ad ((flow, ts) ∷ rest) = observe (anomaly_check_flow ad flow ts).1 rest

abbrev pub total_bytes : List (FlowEvent × ℕ) → ℕ
total_bytes [] = 0
total_bytes ((flow, ts) ∷ rest) = flow.bytes + total_bytes rest

-- The byte count of a tracked flow is never reset: after any number of its packets, none reported
-- as a scan or a spike, it is the count before plus the bytes of all of them, modulo 2^64. So the
-- bandwidth of the next packet divides the bytes of the flow's whole life by one interval.
pub observe-accumulates :
    (key : FlowKey) (ad : AnomalyDetector) (packets : List (FlowEvent × ℕ)) (b : BwRecord)
    → bw_of key ad.bw_records ≡ some b
    → Quiet key ad packets
    → b.last_bytes < u64_mod
    → (b' : BwRecord) × (bw_of key (observe ad packets).bw_records ≡ some b')
      × (b'.last_bytes ≡ (b.last_bytes + total_bytes packets) % u64_mod)
unfolding observe
observe-accumulates key ad [] b v q h = (b, v, omega arith)
observe-accumulates key ad ((flow, ts) ∷ rest) b v q h =
    let (same, calm, q') = q in
    let here : bw_of (bw_key flow) ad.bw_records ≡ some b = rw same v in
    let next = (check_flow-bandwidth ad flow ts b here calm).0 in
    let next' : bw_of key (anomaly_check_flow ad flow ts).1.bw_records
        ≡ some (count_bytes flow.bytes ts b) =
      rw (← same) next in
    let (b', v', e) =
      observe-accumulates key (anomaly_check_flow ad flow ts).1 rest (count_bytes flow.bytes ts b)
        next' q' (omega arith) in
    (b', v', omega arith)
