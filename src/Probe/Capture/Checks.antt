-- ===== src/Probe/Capture/Checks.antt =====
-- The body of the capture loop on a concrete frame.
use stb_e_bpf.Base.{ℕ, ◌≡◌, refl, some, List, [], ◌∷◌, ◌++◌, arith, replicate, codes}
use stb_e_bpf.FlowTracker.Invariant.{IsValid, count_active, count_key}
use stb_e_bpf.FlowTracker.Retransmit.{fresh_acks}
use stb_e_bpf.FlowTracker.{zero_record}
use stb_e_bpf.Anomaly.{anomaly_detector_create}
use stb_e_bpf.Probe.Capture.{Probe, Clock, capture_packet}
use stb_e_bpf.Probe.Capture.Safety.{capture_packet-Safe}

-- An IPv4 UDP frame from port 4096 to port 53 with 18 bytes of payload.
abbrev frame : List ℕ
frame =
    replicate 12 2
    ++ (0x08 ∷ 0x00 ∷ 0x45 ∷ 0 ∷ 0 ∷ 46 ∷ 0 ∷ 1 ∷ 0 ∷ 0 ∷ 64 ∷ 17 ∷ 0 ∷ 0 ∷ 10 ∷ 0 ∷ 0 ∷ 1 ∷ 10 ∷ 0
        ∷ 0 ∷ 2 ∷ 0x10 ∷ 0 ∷ 0 ∷ 53 ∷ 0 ∷ 26 ∷ 0 ∷ 0 ∷ 0 ∷ 1 ∷ 1 ∷ 0 ∷ 0 ∷ 1 ∷ 0 ∷ 0 ∷ 0 ∷ 0 ∷ 0 ∷ 0
        ∷ 1 ∷ b'a' ∷ 0 ∷ 0 ∷ 1 ∷ 0 ∷ [])

abbrev clock : Clock
clock = record { received = 10; updated = 11; claimed = 12; checked = 13; judged = 14 }

abbrev probe : Probe
probe = record {
  tracker = record {
    records = zero_record ∷ [];
    max_flows = 1;
    events = [];
    max_events = 2;
    active_count = 0;
  };
  acks = fresh_acks;
  anomaly = anomaly_detector_create;
}

probe-IsValid : IsValid probe.tracker
unfolding count_active count_key
probe-IsValid = record {
  width = refl;
  counted = refl;
  sized = refl;
  bounded = omega arith;
  distinct = λ k. omega arith;
}

capture_packet-Safe_example :
    (p' : Probe) × (capture_packet (codes "stb-1") frame 60 clock probe ≡ some p')
    × IsValid p'.tracker
capture_packet-Safe_example =
    capture_packet-Safe frame 60 (omega arith) (codes "stb-1") clock probe probe-IsValid
