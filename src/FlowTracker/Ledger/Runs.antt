-- ===== src/FlowTracker/Ledger/Runs.antt =====
-- The calls of src/flow_tracker.c that are made while frames are captured implement the ledger.
use stb_e_bpf.Base.{
  ℕ, ◌≡◌, refl, ap, ◌∙◌, inl, inr, Bool-cases, Option-cases, Option, none, some, List, [], ◌∷◌,
  arith, All, length, length-modify, length-replicate, modify, ltb, add32,
}
use stb_e_bpf.Flow.{FlowKey, FlowEvent, FlowEvent}
use stb_e_bpf.FlowTracker.{
  FlowRecord, FlowTracker, zero_record, find_record, find_active, count_packet, add_event,
  flow_tracker_update_single, flow_tracker_flush,
}
use stb_e_bpf.FlowTracker.View.{view}
use stb_e_bpf.FlowTracker.Retransmit.{
  AckTable, set_expected, count_retransmit, count_dup_ack, check_pure_ack, check_segment,
  flow_tracker_check_tcp_retransmit,
}
use stb_e_bpf.FlowTracker.Runs.{
  Op, State, single, poll, segment, flush, cleanup, created, step, run,
}
use stb_e_bpf.FlowTracker.Ledger.{Account, enter, credit, IsCapture, note, note_all, balance}
use stb_e_bpf.FlowTracker.Ledger.Refinement.{
  Refines, Spares, created-Refines, find_record-Refines, find_record-active, length-find_record,
  count-Refines, credit-untracked, spare-Refines,
}

-- A state of the tracker with `room` slots that holds a ledger.
abbrev Keeps : ℕ → List Account → FlowTracker → Type 0
Keeps room as' ft = (length ft.records ≡ room) × Refines as' ft.records

add_event-Keeps :
    (room : ℕ) (as' : List Account) (ft : FlowTracker) (ev : FlowEvent)
    → Keeps room as' ft
    → Keeps room as' (add_event ft ev)
unfolding add_event
add_event-Keeps room as' ft ev k = elim (Bool-cases (ltb (length ft.events) ft.max_events)) [
  | inl free ↦ rw (free, add_event) k
  | inr full ↦ rw (full, add_event) k
]

find_record-Keeps :
    (room : ℕ) (as' : List Account) (ft : FlowTracker) (key : FlowKey) (now : ℕ)
    → Keeps room as' ft
    → Keeps room (enter room key as') (find_record ft key now).1
find_record-Keeps room as' ft key now (w, h) =
    (length-find_record ft key now ∙ w, rw (← w) (find_record-Refines as' ft key now h))

-- Writes to the slot of a key: one that counts a packet, and one that leaves what is counted alone.
count-Keeps :
    (room : ℕ) (as' : List Account) (ft : FlowTracker) (key : FlowKey) (bytes ts i : ℕ)
    → Keeps room as' ft
    → find_active key ft.records ≡ some i
    → Keeps room
        (credit key bytes as')
        (record ft { records = modify ft.records i (count_packet bytes ts) })
count-Keeps room as' ft key bytes ts i (w, h) a = (
  length-modify ft.records i (count_packet bytes ts) ∙ w,
  count-Refines as' ft.records key bytes ts i h a,
)

spare-Keeps :
    (room : ℕ) (as' : List Account) (ft : FlowTracker) (key : FlowKey) (i : ℕ)
    (g : FlowRecord → FlowRecord)
    → Keeps room as' ft
    → find_active key ft.records ≡ some i
    → Spares g
    → Keeps room as' (record ft { records = modify ft.records i g })
spare-Keeps room as' ft key i g (w, h) a s =
    (length-modify ft.records i g ∙ w, spare-Refines as' ft.records key i g s h a)

update_single-Keeps :
    (room : ℕ) (as' : List Account) (ft : FlowTracker) (key : FlowKey) (bytes : ℕ)
    (probe_id : List ℕ) (ts now : ℕ)
    → Keeps room as' ft
    → Keeps room
        (credit key bytes (enter room key as'))
        (flow_tracker_update_single ft key bytes probe_id ts now)
unfolding flow_tracker_update_single
update_single-Keeps room as' ft key bytes probe_id ts now k =
    let entered = find_record-Keeps room as' ft key now k in
    let at = find_record-active ft key now in
    elim (Option-cases (find_record ft key now).0) [
      | inl e ↦
          rw (e, flow_tracker_update_single)
            (rw
              (credit-untracked (enter room key as') (find_record ft key now).1.records key bytes
                entered.1 (at ∙ e))
              entered)
      | inr (i, e) ↦
          rw (e, flow_tracker_update_single)
            (add_event-Keeps room _ _ _ (
              count-Keeps room (enter room key as') (find_record ft key now).1 key bytes ts i
                entered (at ∙ e)))
    ]

check_segment-Keeps :
    (room : ℕ) (as' : List Account) (ft : FlowTracker) (acks : AckTable) (key : FlowKey)
    (i seq_num pkt_len flags : ℕ)
    → Keeps room as' ft
    → find_active key ft.records ≡ some i
    → Keeps room as' (check_segment ft acks i seq_num pkt_len flags).tracker
unfolding check_segment check_pure_ack
check_segment-Keeps room as' ft acks key i seq_num pkt_len flags k a = ground (
  arith,
  k,
  spare-Keeps room as' ft key i (set_expected (add32 seq_num 1)) k a
      (λ r. (refl, refl, refl, refl)),
  spare-Keeps room as' ft key i count_retransmit k a (λ r. (refl, refl, refl, refl)),
  spare-Keeps room as' ft key i (set_expected (add32 seq_num pkt_len)) k a
      (λ r. (refl, refl, refl, refl)),
  spare-Keeps room as' ft key i count_dup_ack k a (λ r. (refl, refl, refl, refl)),
)

check-Keeps :
    (room : ℕ) (as' : List Account) (ft : FlowTracker) (acks : AckTable) (key : FlowKey)
    (seq_num pkt_len flags now : ℕ)
    → Keeps room as' ft
    → Keeps room
        (enter room key as')
        (flow_tracker_check_tcp_retransmit ft acks key seq_num pkt_len flags now).tracker
unfolding flow_tracker_check_tcp_retransmit
check-Keeps room as' ft acks key seq_num pkt_len flags now k =
    let entered = find_record-Keeps room as' ft key now k in
    elim (Option-cases (find_record ft key now).0) [
      | inl e ↦ rw (e, flow_tracker_check_tcp_retransmit) entered
      | inr (i, e) ↦
          rw (e, flow_tracker_check_tcp_retransmit)
            (check_segment-Keeps room (enter room key as') (find_record ft key now).1 acks key i
              seq_num pkt_len flags entered (find_record-active ft key now ∙ e))
    ]

step-Keeps :
    (room : ℕ) (as' : List Account) (s : State) (op : Op)
    → IsCapture op
    → Keeps room as' s.0
    → Keeps room (note room op as') (step s op).0
unfolding step note flow_tracker_flush
step-Keeps room as' (ft, acks) (single key bytes probe_id ts now) c k =
    update_single-Keeps room as' ft key bytes probe_id ts now k
step-Keeps room as' (ft, acks) (poll entries ts clock) c k = absurd c
step-Keeps room as' (ft, acks) (segment key seq_num pkt_len flags now) c k =
    check-Keeps room as' ft acks key seq_num pkt_len flags now k
step-Keeps room as' (ft, acks) flush c k = k
step-Keeps room as' (ft, acks) (cleanup max_age_ns ts) c k = absurd c

run-Keeps :
    (room : ℕ) (as' : List Account) (s : State) (ops : List Op)
    → All IsCapture ops
    → Keeps room as' s.0
    → Keeps room (note_all room ops as') (run s ops).0
unfolding run note_all
run-Keeps room as' s [] c k = k
run-Keeps room as' s (op ∷ ops) c k =
    run-Keeps room (note room op as') (step s op) ops c.1 (step-Keeps room as' s op c.0 k)

-- What is counted for a key that is tracked.
abbrev pub counted : Option FlowRecord → Option (ℕ × ℕ)
counted none = none
counted (some r) = some (r.value.bytes, r.value.packets)

Refines-balance :
    (as' : List Account) (rs : List FlowRecord) (key : FlowKey)
    → Refines as' rs
    → counted (view key rs) ≡ balance key as'
unfolding Refines view balance
Refines-balance [] [] key h = refl
Refines-balance [] (r ∷ rs) key h =
    ground (arith, ap FlowRecord.active h.0, Refines-balance [] rs key h.1)
Refines-balance (a ∷ as') [] key h = absurd h
Refines-balance (a ∷ as') (r ∷ rs) key h = ground (arith, Refines-balance as' rs key h.1, h.0)

-- For a new tracker of any size, any sequence of packets, segments and flushes, and any key: the
-- tracker knows the key, with these bytes and packets, exactly if the ledger does that the same
-- calls write: the first keys get an account, as many as there are slots, each packet is credited
-- to the account of its key, and a segment that is checked only enters its key.
pub run-Ledger :
    (room : ℕ) (acks : AckTable) (ops : List Op) (key : FlowKey)
    → All IsCapture ops
    → counted (view key (run (created room, acks) ops).0.records)
      ≡ balance key (note_all room ops [])
run-Ledger room acks ops key c =
    let (size, kept) =
      run-Keeps room [] (created room, acks) ops c
        (length-replicate room zero_record, created-Refines room) in
    Refines-balance (note_all room ops []) (run (created room, acks) ops).0.records key kept
