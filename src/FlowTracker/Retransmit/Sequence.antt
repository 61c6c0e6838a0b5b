-- ===== src/FlowTracker/Retransmit/Sequence.antt =====
-- Which data segments are taken for retransmissions.
use stb_e_bpf.Base.{
  ℕ, ◌+◌, ◌-◌, ◌%◌, ◌<◌, ◌≡◌, refl, ◌≢◌, inl, inr, Bool, true, false, not, ◌&&◌, ◌||◌, some, List,
  [], ◌∷◌, arith, ltb, leb, ◌==◌, if◌then◌else◌, Option-cases, get_or, modify, All, add32, u32_mod,
  has_bits,
}
use stb_e_bpf.Flow.{FlowKey, key_eq}
use stb_e_bpf.Flow.Key.{key_eq_refl}
use stb_e_bpf.FlowTracker.{FlowRecord, FlowTracker, zero_record, find_record}
use stb_e_bpf.FlowTracker.View.{view, Keeps}
use stb_e_bpf.FlowTracker.Slots.{
  start-view, find_record-writes, find_record-none, find_record-start,
}
use stb_e_bpf.FlowTracker.Retransmit.{
  AckTable, consumes_seq, set_expected, count_retransmit, check_segment,
  flow_tracker_check_tcp_retransmit,
}

-- `seq_num` lies behind the expected number, as the code compares them.
abbrev pub behind : ℕ → FlowRecord → Bool
behind seq_num r = not (r.value.seq_expected == 0) && ltb seq_num r.value.seq_expected

-- What a data segment leaves in its record.
abbrev pub after_data : ℕ → ℕ → FlowRecord → FlowRecord
after_data seq_num pkt_len r =
    if behind seq_num r
    then record r { value = record (r.value) { retransmits = (r.value.retransmits + 1) % u32_mod } }
    else record r { value = record (r.value) { seq_expected = (seq_num + pkt_len) % u32_mod } }

-- A segment that carries neither SYN nor FIN.
abbrev pub IsPlainData : ℕ → Type 0
IsPlainData flags = (has_bits flags 0x02 ≡ false) × (has_bits flags 0x01 ≡ false)

-- The write that a data segment makes to its record.
abbrev data_write : ℕ → ℕ → Bool → FlowRecord → FlowRecord
data_write seq_num pkt_len true r = count_retransmit r
data_write seq_num pkt_len false r = set_expected (add32 seq_num pkt_len) r

data_write-Keeps : (seq_num pkt_len : ℕ) (b : Bool) → Keeps (data_write seq_num pkt_len b)
data_write-Keeps seq_num pkt_len true r = (refl, refl)
data_write-Keeps seq_num pkt_len false r = (refl, refl)

data_write-after :
    (seq_num pkt_len : ℕ) (r : FlowRecord)
    → data_write seq_num pkt_len (behind seq_num r) r ≡ after_data seq_num pkt_len r
data_write-after seq_num pkt_len r = ground arith

data_writes :
    (ft : FlowTracker) (acks : AckTable) (i seq_num pkt_len flags : ℕ) (b : Bool)
    → consumes_seq flags ≡ false
    → 0 < pkt_len
    → behind seq_num (get_or ft.records i zero_record) ≡ b
    → ((check_segment ft acks i seq_num pkt_len flags).is_retransmit ≡ b)
      × ((check_segment ft acks i seq_num pkt_len flags).tracker.records
          ≡ modify ft.records i (data_write seq_num pkt_len b))
unfolding check_segment
data_writes ft acks i seq_num pkt_len flags true s p h = (ground arith, simp (h, s) (ground arith))
data_writes ft acks i seq_num pkt_len flags false s p h = (ground arith, simp (h, s) (ground arith))

-- For a tracked flow, a data segment without SYN and FIN is reported as a retransmission exactly
-- if a number is expected and the segment's number is below it. The record then counts the
-- retransmission and keeps the number; otherwise it expects the number behind the segment. No
-- other flow changes.
pub check-data :
    (ft : FlowTracker) (acks : AckTable) (key k : FlowKey) (seq_num pkt_len flags now : ℕ)
    (r : FlowRecord)
    → view key ft.records ≡ some r
    → IsPlainData flags
    → 0 < pkt_len
    → let c = flow_tracker_check_tcp_retransmit ft acks key seq_num pkt_len flags now in
      (c.is_retransmit ≡ behind seq_num r)
      × (view k c.tracker.records
          ≡ (if key_eq key k then some (after_data seq_num pkt_len r) else view k ft.records))
unfolding flow_tracker_check_tcp_retransmit
check-data ft acks key k seq_num pkt_len flags now r v plain p =
    let s : consumes_seq flags ≡ false = ground arith in
    let started = start-view key now ft.records r v in
    elim (Option-cases (find_record ft key now).0) [
      | inl e ↦ absurd (ground (arith, find_record-none ft key now e))
      | inr (i, e) ↦
          let here = find_record-start ft key now i zero_record e in
          let ft' = (find_record ft key now).1 in
          let same : get_or ft'.records i zero_record ≡ r = ground arith in
          let b = behind seq_num r in
          let (flag, writes) = data_writes ft' acks i seq_num pkt_len flags b s p (rw same) in
          (
            ground arith,
            ground (
              arith,
              find_record-writes ft key k now i (data_write seq_num pkt_len b)
                  (data_write-Keeps seq_num pkt_len b) e,
              data_write-after seq_num pkt_len r,
            ),
          )
    ]

-- `a` comes before `b` in the order of 32-bit sequence numbers (RFC 1982, RFC 793).
abbrev pub serial_before : ℕ → ℕ → Bool
serial_before a b = leb 0x8000_0000 ((a + u32_mod - b) % u32_mod)

-- The two numbers lie less than half the sequence space apart.
abbrev pub is_near : ℕ → ℕ → Bool
is_near a b = ltb a (b + 0x8000_0000) && ltb b (a + 0x8000_0000)

-- For a flow that expects a number, the comparison in the code is that of RFC 793 where the two
-- numbers lie less than half the sequence space apart as plain numbers, and is its opposite where
-- they do not, that is, where the sequence has wrapped between them.
pub behind-serial :
    (seq_num : ℕ) (r : FlowRecord)
    → seq_num < u32_mod
    → r.value.seq_expected < u32_mod
    → r.value.seq_expected ≢ 0
    → seq_num + 0x8000_0000 ≢ r.value.seq_expected
    → behind seq_num r ≡ (
        if is_near seq_num r.value.seq_expected
        then serial_before seq_num r.value.seq_expected
        else not (serial_before seq_num r.value.seq_expected))
behind-serial seq_num r s e n half = ground arith

-- A connection that delivers its segments in order: whether any of them is reported, and what is
-- left. `lens` are the payload lengths, and each segment starts where the former one ended.
unfoldable pub deliver : FlowTracker → AckTable → FlowKey → ℕ → ℕ → ℕ → List ℕ → Bool × FlowTracker
deliver ft acks key flags now seq_num [] = (false, ft)
deliver ft acks key flags now seq_num (n ∷ lens) =
    let c = flow_tracker_check_tcp_retransmit ft acks key seq_num n flags now in
    let (more, ft') = deliver c.tracker c.acks key flags now (add32 seq_num n) lens in
    (c.is_retransmit || more, ft')

abbrev pub total : List ℕ → ℕ
total [] = 0
total (n ∷ ns) = n + total ns

-- For a tracked flow that expects `seq_num`, segments without SYN and FIN that each carry data and
-- follow one another without a gap, across the wrap of the sequence number too, are never reported,
-- and the flow expects the number behind the last of them.
pub deliver_in_order :
    (ft : FlowTracker) (acks : AckTable) (key : FlowKey) (flags now seq_num : ℕ) (lens : List ℕ)
    (r : FlowRecord)
    → view key ft.records ≡ some r
    → IsPlainData flags
    → All (λ n. 0 < n) lens
    → seq_num < u32_mod
    → r.value.seq_expected ≡ seq_num
    → let (reported, ft') = deliver ft acks key flags now seq_num lens in
      (reported ≡ false)
      × ((r' : FlowRecord) × (view key ft'.records ≡ some r')
          × (r'.value.seq_expected ≡ (seq_num + total lens) % u32_mod))
unfolding deliver
deliver_in_order ft acks key flags now seq_num [] r v s d b e = (refl, (r, v, omega arith))
deliver_in_order ft acks key flags now seq_num (n ∷ lens) r v s d b e =
    let (flag, view') = check-data ft acks key key seq_num n flags now r v s d.0 in
    let calm : behind seq_num r ≡ false = ground arith in
    let c = flow_tracker_check_tcp_retransmit ft acks key seq_num n flags now in
    let (rest, (r', v', e')) =
      deliver_in_order c.tracker c.acks key flags now (add32 seq_num n) lens
        (set_expected (add32 seq_num n) r) (ground (arith, key_eq_refl key)) s d.1 (omega arith)
        refl in
    (ground arith, (r', v', omega arith))
