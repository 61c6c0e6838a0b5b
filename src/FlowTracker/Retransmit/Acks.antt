-- ===== src/FlowTracker/Retransmit/Acks.antt =====
-- What a pure ACK is compared with.
use stb_e_bpf.Base.{
  ℕ, zero, suc, ◌+◌, ◌%◌, ◌≡◌, refl, ap, ◌≢◌, inl, inr, true, false, not, ◌&&◌, List, [], ◌∷◌,
  arith, ◌==◌, if◌then◌else◌, Option-cases, get_or, set, has_bits,
}
use stb_e_bpf.Flow.{FlowKey}
use stb_e_bpf.FlowTracker.{FlowTracker, find_record}
use stb_e_bpf.FlowTracker.Retransmit.{
  AckTable, consumes_seq, check_pure_ack, check_segment, flow_tracker_check_tcp_retransmit,
}

-- The slot that the next pure ACK is compared with.
abbrev pub slot : AckTable → ℕ
slot acks = get_or acks.last_ack_per_flow (acks.flow_idx % 4096) 0

-- The table after a pure ACK.
abbrev pub advance : AckTable → ℕ → AckTable
advance acks seq_num = record {
  last_ack_per_flow = set acks.last_ack_per_flow (acks.flow_idx % 4096) seq_num;
  flow_idx = acks.flow_idx + 1;
}

-- A pure ACK of any flow that has a record is reported as a duplicate exactly if its sequence
-- number is not zero and is in the slot that `flow_idx` has reached; the slot takes the number and
-- the index moves on. Without a record nothing is reported and the table stays.
pub check-pure_ack :
    (ft : FlowTracker) (acks : AckTable) (key : FlowKey) (seq_num flags now : ℕ)
    → consumes_seq flags ≡ false
    → has_bits flags 0x10 ≡ true
    → let c = flow_tracker_check_tcp_retransmit ft acks key seq_num 0 flags now in
      (c.is_retransmit ≡ false)
      × (c.is_dup_ack ≡ (c.found && slot acks == seq_num && not (seq_num == 0)))
      × (c.acks ≡ (if c.found then advance acks seq_num else acks))
unfolding flow_tracker_check_tcp_retransmit check_segment check_pure_ack
check-pure_ack ft acks key seq_num flags now s a = elim (Option-cases (find_record ft key now).0) [
  | inl e ↦ (ground arith, ground arith, ground arith)
  | inr (i, e) ↦ (ground arith, ground arith, ground arith)
]

get_or-set_ne : (xs : List ℕ) (i j v : ℕ) → i ≢ j → get_or (set xs i v) j 0 ≡ get_or xs j 0
get_or-set_ne [] i j v h = refl
get_or-set_ne (x ∷ xs) zero zero v h = absurd (h refl)
get_or-set_ne (x ∷ xs) zero (suc j) v h = refl
get_or-set_ne (x ∷ xs) (suc i) zero v h = refl
get_or-set_ne (x ∷ xs) (suc i) (suc j) v h = get_or-set_ne xs i j v (λ e. h (ap suc e))

-- A pure ACK that comes at once after another one is not compared with it: what it is compared
-- with, the slot after, was there before the first one came. So a repeated ACK goes unreported
-- unless its number happens to be in that slot.
pub repeated_ack :
    (ft ft' : FlowTracker) (acks : AckTable) (key key' : FlowKey) (seq_num flags now now' : ℕ)
    → consumes_seq flags ≡ false
    → has_bits flags 0x10 ≡ true
    → (flow_tracker_check_tcp_retransmit ft acks key seq_num 0 flags now).found ≡ true
    → let c = flow_tracker_check_tcp_retransmit ft acks key seq_num 0 flags now in
      let c' = flow_tracker_check_tcp_retransmit ft' c.acks key' seq_num 0 flags now' in
      c'.is_dup_ack ≡ (
        c'.found
        && get_or acks.last_ack_per_flow ((acks.flow_idx + 1) % 4096) 0 == seq_num
        && not (seq_num == 0))
repeated_ack ft ft' acks key key' seq_num flags now now' s a found =
    let (_, _, next) = check-pure_ack ft acks key seq_num flags now s a in
    let (_, dup, _) =
      check-pure_ack ft' (flow_tracker_check_tcp_retransmit ft acks key seq_num 0 flags now).acks
        key' seq_num flags now' s a in
    let other =
      get_or-set_ne acks.last_ack_per_flow (acks.flow_idx % 4096) ((acks.flow_idx + 1) % 4096)
        seq_num (omega arith) in
    ground arith
