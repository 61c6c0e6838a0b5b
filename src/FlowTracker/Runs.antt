-- ===== src/FlowTracker/Runs.antt =====
-- Every sequence of calls leaves a valid tracker.
use stb_e_bpf.Base.{
  ℕ, ◌+◌, ◌*◌, ◌≡◌, refl, inl, inr, true, some, List, [], ◌∷◌, arith, ltb, Bool-cases, Option-cases,
  get_or, replicate, length-replicate, add32,
}
use stb_e_bpf.Flow.{FlowKey, ProcNetEntry}
use stb_e_bpf.FlowTracker.{
  FlowTracker, zero_record, flow_tracker_create, find_record, delta_bytes, entry_key, update_entry,
  update_from, flow_tracker_update, flow_tracker_update_single, flow_tracker_flush,
  flow_tracker_cleanup,
}
use stb_e_bpf.FlowTracker.Retransmit.{
  AckTable, set_expected, count_retransmit, count_dup_ack, check_pure_ack, check_segment,
  flow_tracker_check_tcp_retransmit,
}
use stb_e_bpf.FlowTracker.Invariant.{
  counts-replicate, IsValid, find_record-IsValid, modify-IsValid, add_event-IsValid,
}
use stb_e_bpf.FlowTracker.Accounting.{count_packet-Keeps, count_queues-Keeps}
use stb_e_bpf.FlowTracker.Cleanup.{cleanup-IsValid}

-- What `flow_tracker_create` hands back when its allocations succeed.
abbrev pub created : ℕ → FlowTracker
created max_flows = record {
  records = replicate max_flows zero_record;
  max_flows = max_flows;
  events = [];
  max_events = max_flows * 2;
  active_count = 0;
}

pub create-IsValid : (n : ℕ) → (flow_tracker_create true n ≡ some (created n)) × IsValid (created n)
unfolding flow_tracker_create
create-IsValid n = (
  refl,
  record {
    width = length-replicate n zero_record;
    counted = omega (arith, (counts-replicate n zero_record.key).0);
    sized = refl;
    bounded = omega arith;
    distinct = λ k. omega (arith, (counts-replicate n k).1);
  },
)

pub update_single-IsValid :
    (ft : FlowTracker) (key : FlowKey) (bytes : ℕ) (probe_id : List ℕ) (ts now : ℕ)
    → IsValid ft
    → IsValid (flow_tracker_update_single ft key bytes probe_id ts now)
unfolding flow_tracker_update_single
update_single-IsValid ft key bytes probe_id ts now v =
    let w = find_record-IsValid ft key now v in
    elim (Option-cases (find_record ft key now).0) [
      | inl e ↦ rw (e, flow_tracker_update_single) w
      | inr (i, e) ↦
          rw (e, flow_tracker_update_single)
            (add_event-IsValid _ _ (modify-IsValid _ i _ (count_packet-Keeps bytes ts) w))
    ]

update_entry-IsValid :
    (ft : FlowTracker) (e : ProcNetEntry) (ts now : ℕ)
    → IsValid ft
    → IsValid (update_entry ft e ts now)
unfolding update_entry
update_entry-IsValid ft e ts now v =
    let w = find_record-IsValid ft (entry_key e) now v in
    elim (Option-cases (find_record ft (entry_key e) now).0) [
      | inl h ↦ rw (h, update_entry) w
      | inr (i, h) ↦
          let w' = modify-IsValid _ i _ (count_queues-Keeps e ts) w in
          let delta =
            delta_bytes e (get_or (find_record ft (entry_key e) now).1.records i zero_record) in
          elim (Bool-cases (ltb 0 delta)) [
            | inl pos ↦ rw (h, update_entry) (rw pos (add_event-IsValid _ _ w'))
            | inr same ↦ rw (h, update_entry) (rw same w')
          ]
    ]

pub update_from-IsValid :
    (clock : ℕ → ℕ) (ts i : ℕ) (ft : FlowTracker) (es : List ProcNetEntry)
    → IsValid ft
    → IsValid (update_from clock ts i ft es)
unfolding update_from
update_from-IsValid clock ts i ft [] v = v
update_from-IsValid clock ts i ft (e ∷ es) v =
    update_from-IsValid clock ts (i + 1) _ es (update_entry-IsValid ft e ts (clock i) v)

check_segment-IsValid :
    (ft : FlowTracker) (acks : AckTable) (i seq_num pkt_len flags : ℕ)
    → IsValid ft
    → IsValid (check_segment ft acks i seq_num pkt_len flags).tracker
unfolding check_segment check_pure_ack
check_segment-IsValid ft acks i seq_num pkt_len flags v = ground (
  arith,
  v,
  modify-IsValid ft i (set_expected (add32 seq_num 1)) (λ r. (refl, refl)) v,
  modify-IsValid ft i count_retransmit (λ r. (refl, refl)) v,
  modify-IsValid ft i (set_expected (add32 seq_num pkt_len)) (λ r. (refl, refl)) v,
  modify-IsValid ft i count_dup_ack (λ r. (refl, refl)) v,
)

pub check-IsValid :
    (ft : FlowTracker) (acks : AckTable) (key : FlowKey) (seq_num pkt_len flags now : ℕ)
    → IsValid ft
    → IsValid (flow_tracker_check_tcp_retransmit ft acks key seq_num pkt_len flags now).tracker
unfolding flow_tracker_check_tcp_retransmit
check-IsValid ft acks key seq_num pkt_len flags now v =
    let w = find_record-IsValid ft key now v in
    elim (Option-cases (find_record ft key now).0) [
      | inl e ↦ rw (e, flow_tracker_check_tcp_retransmit) w
      | inr (i, e) ↦
          rw (e, flow_tracker_check_tcp_retransmit)
            (check_segment-IsValid _ acks i seq_num pkt_len flags w)
    ]

-- The calls that change a tracker.
pub data Op : Type 0 where
  single : FlowKey → ℕ → List ℕ → ℕ → ℕ → Op
  poll : List ProcNetEntry → ℕ → (ℕ → ℕ) → Op
  segment : FlowKey → ℕ → ℕ → ℕ → ℕ → Op
  flush : Op
  cleanup : ℕ → ℕ → Op

-- The tracker, and the static variables of the retransmission check.
abbrev pub State : Type 0
State = FlowTracker × AckTable

unfoldable pub step : State → Op → State
step (ft, acks) (single key bytes probe_id ts now) =
    (flow_tracker_update_single ft key bytes probe_id ts now, acks)
step (ft, acks) (poll entries ts clock) = (flow_tracker_update ft entries ts clock, acks)
step (ft, acks) (segment key seq_num pkt_len flags now) =
    let c = flow_tracker_check_tcp_retransmit ft acks key seq_num pkt_len flags now in
    (c.tracker, c.acks)
step (ft, acks) flush = (flow_tracker_flush ft, acks)
step (ft, acks) (cleanup max_age_ns ts) = (flow_tracker_cleanup ft max_age_ns ts, acks)

unfoldable pub run : State → List Op → State
run s [] = s
run s (op ∷ ops) = run (step s op) ops

pub flush-IsValid : (ft : FlowTracker) → IsValid ft → IsValid (flow_tracker_flush ft)
unfolding flow_tracker_flush
flush-IsValid ft v = record {
  width = v.width;
  counted = v.counted;
  sized = v.sized;
  bounded = omega arith;
  distinct = v.distinct;
}

step-IsValid : (s : State) (op : Op) → IsValid s.0 → IsValid (step s op).0
unfolding step flow_tracker_update
step-IsValid (ft, acks) (single key bytes probe_id ts now) v =
    update_single-IsValid ft key bytes probe_id ts now v
step-IsValid (ft, acks) (poll entries ts clock) v = update_from-IsValid clock ts 0 ft entries v
step-IsValid (ft, acks) (segment key seq_num pkt_len flags now) v =
    check-IsValid ft acks key seq_num pkt_len flags now v
step-IsValid (ft, acks) flush v = flush-IsValid ft v
step-IsValid (ft, acks) (cleanup max_age_ns ts) v = cleanup-IsValid ft max_age_ns ts v

run-IsValid : (s : State) (ops : List Op) → IsValid s.0 → IsValid (run s ops).0
unfolding run
run-IsValid s [] v = v
run-IsValid s (op ∷ ops) v = run-IsValid (step s op) ops (step-IsValid s op v)

-- After any sequence of calls on a new tracker: the table keeps its size, `active_count` is the
-- number of active records, no key has two active records, and the event buffer holds at most
-- twice as many events as there are slots.
pub run-created-IsValid :
    (max_flows : ℕ) (acks : AckTable) (ops : List Op)
    → (flow_tracker_create true max_flows ≡ some (created max_flows))
      × IsValid (run (created max_flows, acks) ops).0
run-created-IsValid max_flows acks ops =
    let (made, v) = create-IsValid max_flows in (made, run-IsValid _ ops v)
