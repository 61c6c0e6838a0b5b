-- ===== src/FlowTracker/Retransmit.antt =====
-- `flow_tracker_check_tcp_retransmit` of src/flow_tracker.c.
pub mod Acks
pub mod Sequence
use stb_e_bpf.Base.{
  ℕ, List, replicate, Bool, add32, get_or, has_bits, true, false, modify, ◌||◌, ◌%◌, if◌then◌else◌,
  none, ◌==◌, ltb, some, ◌&&◌, not, set, ◌+◌,
}
use stb_e_bpf.FlowTracker.{
  FlowTracker, FlowRecord, find_record, zero_record, FlowKey, tcp_flag_syn, tcp_flag_fin,
  tcp_flag_ack,
}

-- The static variables of `flow_tracker_check_tcp_retransmit`. `flow_idx` counts the pure ACKs,
-- of which there are taken to be fewer than 2^31.
pub record AckTable : Type 0 where
  pub last_ack_per_flow : List ℕ
  pub flow_idx : ℕ

abbrev pub fresh_acks : AckTable
fresh_acks = record { last_ack_per_flow = replicate 4096 0; flow_idx = 0 }

-- What the function hands back: its return value (`none` for -1), the two outputs and the state.
pub record Checked : Type 0 where
  pub found : Bool
  pub is_retransmit : Bool
  pub is_dup_ack : Bool
  pub tracker : FlowTracker
  pub acks : AckTable

abbrev pub consumes_seq : ℕ → Bool
consumes_seq flags = has_bits flags tcp_flag_syn || has_bits flags tcp_flag_fin

abbrev pub set_expected : ℕ → FlowRecord → FlowRecord
set_expected seq r = record r { value = record (r.value) { seq_expected = seq } }

abbrev pub count_retransmit : FlowRecord → FlowRecord
count_retransmit r = record r {
  value = record (r.value) { retransmits = add32 r.value.retransmits 1 };
}

abbrev pub count_dup_ack : FlowRecord → FlowRecord
count_dup_ack r = record r { value = record (r.value) { dup_acks = add32 r.value.dup_acks 1 } }

-- The last part: a pure ACK is compared with the slot that `flow_idx` has reached.
unfoldable pub check_pure_ack : FlowTracker → AckTable → ℕ → ℕ → Checked
check_pure_ack ft acks i seq_num =
    let idx = acks.flow_idx % 4096 in
    let dup = get_or acks.last_ack_per_flow idx 0 == seq_num && not (seq_num == 0) in
    record {
      found = true;
      is_retransmit = false;
      is_dup_ack = dup;
      tracker = if dup then record ft { records = modify ft.records i count_dup_ack } else ft;
      acks = record {
        last_ack_per_flow = set acks.last_ack_per_flow idx seq_num;
        flow_idx = acks.flow_idx + 1;
      };
    }

-- The body behind `find_record`, for the record at index `i`.
unfoldable pub check_segment : FlowTracker → AckTable → ℕ → ℕ → ℕ → ℕ → Checked
check_segment ft acks i seq_num pkt_len tcp_flags =
    let expected = (get_or ft.records i zero_record).value.seq_expected in
    let answer : FlowTracker → Bool → Checked = λ ft' again. record {
      found = true;
      is_retransmit = again;
      is_dup_ack = false;
      tracker = ft';
      acks = acks;
    } in
    let write : (FlowRecord → FlowRecord) → FlowTracker =
      λ f. record ft { records = modify ft.records i f } in
    if consumes_seq tcp_flags
    then answer (write (set_expected (add32 seq_num 1))) false
    else if ltb 0 pkt_len
    then (if not (expected == 0) && ltb seq_num expected
        then answer (write count_retransmit) true
        else answer (write (set_expected (add32 seq_num pkt_len))) false)
    else if has_bits tcp_flags tcp_flag_ack
    then check_pure_ack ft acks i seq_num
    else answer ft false

-- `flow_tracker_check_tcp_retransmit`; its pointers are not null.
unfoldable pub flow_tracker_check_tcp_retransmit :
    FlowTracker → AckTable → FlowKey → ℕ → ℕ → ℕ → ℕ → Checked
flow_tracker_check_tcp_retransmit ft acks key seq_num pkt_len tcp_flags now =
    let (found, ft') = find_record ft key now in
    elim found [
      | none ↦ record {
        found = false;
        is_retransmit = false;
        is_dup_ack = false;
        tracker = ft';
        acks = acks;
      }
      | some i ↦ check_segment ft' acks i seq_num pkt_len tcp_flags
    ]
