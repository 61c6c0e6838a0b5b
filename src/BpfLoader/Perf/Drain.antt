-- ===== src/BpfLoader/Perf/Drain.antt =====
-- The loop over a ring buffer whose records are laid end to end, and over one that it cannot walk.
use stb_e_bpf.Base.{
  ℕ, zero, suc, ◌+◌, ◌-◌, ◌*◌, ◌%◌, ◌≤◌, ◌<◌, ◌≡◌, refl, sym, ap, ◌∙◌, true, false, inl, inr,
  Bool-cases, some, List, [], ◌∷◌, arith, ltb, leb, ◌==◌, length, slice, le16, le32, add64, u64_mod,
}
use mathlib.Core.Path.{subst}
use stb_e_bpf.BpfLoader.Perf.{
  Ring, Batch, done, outside, running, perf_record_sample, event_size, copy_sample, take_record,
  read_ring,
}
use stb_e_bpf.BpfLoader.Perf.Filled.{
  Laid, span, Sized, samples, filled, Even, filled_none, appended, take_record-fills, Rec,
}

-- One round of the loop, and its end.
read_ring_step :
    (fuel bufsize : ℕ) (r : Ring) (b b' : Batch) (header : List ℕ)
    → r.data_tail < r.data_head
    → slice r.bytes (r.data_tail % length r.bytes) 8 ≡ some header
    → take_record bufsize r.bytes (r.data_tail % length r.bytes) header b ≡ some b'
    → read_ring (suc fuel) bufsize r b
      ≡ read_ring fuel bufsize (record r { data_tail = add64 r.data_tail (le16 header 6) }) b'
unfolding read_ring
read_ring_step fuel bufsize r b b' header p s t =
    let go : ltb r.data_tail r.data_head ≡ true = ground arith in
    rw (go, read_ring) (rw (s, t) refl)

read_ring_stop :
    (fuel bufsize : ℕ) (r : Ring) (b : Batch)
    → r.data_tail ≡ r.data_head
    → read_ring (suc fuel) bufsize r b ≡ done (r, b)
unfolding read_ring
read_ring_stop fuel bufsize r b e =
    let stop : ltb r.data_tail r.data_head ≡ false = ground arith in rw (stop, read_ring) refl

-- The loop over the records that are laid out before the rest of the ring: it goes on behind them.
read_ring-Laid :
    (fuel bufsize head tail : ℕ) (bytes : List ℕ) (rs : List Rec) (b : Batch)
    → Laid bytes tail rs
    → Sized rs
    → tail + span rs ≤ head
    → head < u64_mod
    → Even bufsize b
    → read_ring
        (length rs + fuel)
        bufsize
        (record { bytes = bytes; data_head = head; data_tail = tail })
        b
      ≡ read_ring fuel bufsize
          (record { bytes = bytes; data_head = head; data_tail = tail + span rs })
          (filled bufsize b (samples rs))
unfolding span samples
read_ring-Laid fuel bufsize head tail bytes [] b l p e m v =
    let here : tail + 0 ≡ tail = omega arith in
    let all : 0 + fuel ≡ fuel = omega arith in rw (here, filled_none bufsize b) (rw all refl)
read_ring-Laid fuel bufsize head tail bytes (r ∷ rs) b (s, z, h, l) (p, ps) e m v =
    let (b', t, v', same) =
      take_record-fills bufsize bytes (tail % length bytes) r.header r.event rs r.size b h v in
    let next : add64 tail (le16 r.header 6) ≡ tail + r.size = omega arith in
    let one : suc (length rs) + fuel ≡ suc (length rs + fuel) = omega arith in
    let total : tail + r.size + span rs ≡ tail + (r.size + span rs) = omega arith in
    let rest =
      read_ring-Laid fuel bufsize head (tail + r.size) bytes rs b' l ps (omega arith) m v' in
    let step =
      read_ring_step (length rs + fuel) bufsize
        (record { bytes = bytes; data_head = head; data_tail = tail }) b b' r.header (omega arith) s
        t in
    ap (λ n. read_ring n bufsize (record { bytes = bytes; data_head = head; data_tail = tail }) b)
      one
    ∙ step
    ∙ ap
        (λ n.
          read_ring (length rs + fuel) bufsize
            (record { bytes = bytes; data_head = head; data_tail = n }) b')
        next
    ∙ rest
    ∙ ap
        (λ n.
          read_ring fuel bufsize (record { bytes = bytes; data_head = head; data_tail = n })
            (filled bufsize b' (samples rs)))
        total
    ∙ ap
        (λ (c : Batch).
          read_ring fuel bufsize
            (record { bytes = bytes; data_head = head; data_tail = tail + (r.size + span rs) }) c)
        same

-- A ring whose records fill it from the tail to the head, each with its size above zero and its
-- header and event in front of the ring's end, and a batch of whole events: with fuel for one round
-- more than there are records, the loop ends with the tail at the head, and the batch has got the
-- events of the samples in their order, as many as still have room in the buffer.
pub read_ring-fills :
    (fuel bufsize head tail : ℕ) (bytes : List ℕ) (rs : List Rec) (b : Batch)
    → length rs < fuel
    → Laid bytes tail rs
    → Sized rs
    → tail + span rs ≡ head
    → head < u64_mod
    → Even bufsize b
    → read_ring fuel bufsize (record { bytes = bytes; data_head = head; data_tail = tail }) b
      ≡ done (
        record { bytes = bytes; data_head = head; data_tail = head },
        filled bufsize b (samples rs),
      )
read_ring-fills fuel bufsize head tail bytes rs b f l p e m v =
    let more : fuel ≡ length rs + suc (fuel - length rs - 1) = omega arith in
    let laid =
      read_ring-Laid (suc (fuel - length rs - 1)) bufsize head tail bytes rs b l p (omega arith) m
        v in
    ap (λ n. read_ring n bufsize (record { bytes = bytes; data_head = head; data_tail = tail }) b)
      more
    ∙ laid
    ∙ read_ring_stop (fuel - length rs - 1) bufsize
        (record { bytes = bytes; data_head = head; data_tail = tail + span rs })
        (filled bufsize b (samples rs)) e
    ∙ ap
        (λ n. done (
          record { bytes = bytes; data_head = head; data_tail = n },
          filled bufsize b (samples rs),
        ))
        e

take_record-some :
    (bufsize : ℕ) (bytes : List ℕ) (offset : ℕ) (header event : List ℕ) (b : Batch)
    → slice bytes (offset + 12) event_size ≡ some event
    → (b' : Batch) × (take_record bufsize bytes offset header b ≡ some b')
unfolding take_record copy_sample
take_record-some bufsize bytes offset header event b e =
    elim (Bool-cases (le32 header 0 == perf_record_sample)) [
      | inr other ↦ (b, rw other refl)
      | inl sample ↦ elim (Bool-cases (leb (length b.out + event_size) bufsize)) [
        | inl room ↦ (appended b event, rw (sample, room) (rw e refl))
        | inr full ↦ (b, rw (sample, full) refl)
      ]
    ]

-- A record whose size is zero, with the bytes of an event mapped behind its header: whatever the
-- fuel, the loop does not come to its end.
pub read_ring_stuck :
    (fuel bufsize : ℕ) (r : Ring) (header event : List ℕ) (b : Batch)
    → r.data_tail < r.data_head
    → r.data_tail < u64_mod
    → slice r.bytes (r.data_tail % length r.bytes) 8 ≡ some header
    → slice r.bytes (r.data_tail % length r.bytes + 12) event_size ≡ some event
    → le16 header 6 ≡ 0
    → read_ring fuel bufsize r b ≡ running
read_ring_stuck zero bufsize r header event b p m s e z = unfold read_ring in refl
read_ring_stuck (suc fuel) bufsize r header event b p m s e z =
    let next : add64 r.data_tail (le16 header 6) ≡ r.data_tail = omega arith in
    let (b', t) =
      take_record-some bufsize r.bytes (r.data_tail % length r.bytes) header event b e in
    read_ring_step fuel bufsize r b b' header p s t
    ∙ ap (λ n. read_ring fuel bufsize (record r { data_tail = n }) b') next
    ∙ read_ring_stuck fuel bufsize r header event b' p m s e z

-- A sample that there is room for, and whose event the end of the ring cuts.
at_cut :
    (fuel bufsize : ℕ) (r : Ring) (header : List ℕ) (b : Batch)
    → r.data_tail < r.data_head
    → slice r.bytes (r.data_tail % length r.bytes) 8 ≡ some header
    → le32 header 0 ≡ perf_record_sample
    → length b.out + event_size ≤ bufsize
    → length r.bytes < r.data_tail % length r.bytes + 52
    → read_ring (suc fuel) bufsize r b ≡ outside
unfolding read_ring take_record copy_sample slice
at_cut fuel bufsize r header b p s t room cut =
    let go : ltb r.data_tail r.data_head ≡ true = ground arith in
    let sample : (le32 header 0 == perf_record_sample) ≡ true = ground arith in
    let fits : leb (length b.out + event_size) bufsize ≡ true = ground arith in
    let over : leb (r.data_tail % length r.bytes + 12 + event_size) (length r.bytes) ≡ false =
      ground arith in
    rw (go, read_ring)
      (rw s (rw (sample, take_record) (rw (fits, copy_sample) (rw (over, slice) refl))))

-- A batch of whole events that fits the buffer stays one.
filled-Even :
    (bufsize tail : ℕ) (bytes : List ℕ) (rs : List Rec) (b : Batch)
    → Laid bytes tail rs
    → Even bufsize b
    → Even bufsize (filled bufsize b (samples rs))
unfolding samples
filled-Even bufsize tail bytes [] b l v =
    let same = filled_none bufsize b in subst (Even bufsize) (sym same) v
filled-Even bufsize tail bytes (r ∷ rs) b (s, z, h, l) v =
    let (b', t, v', same) =
      take_record-fills bufsize bytes (tail % length bytes) r.header r.event rs r.size b h v in
    subst (Even bufsize) same (filled-Even bufsize (tail + r.size) bytes rs b' l v')

-- Behind records that are laid out, in front of the head, stands the header of a sample whose event
-- the ring's end cuts, and the buffer has room for all these events: the reader copies what lies
-- behind the mapping, with any fuel that takes it so far.
pub read_ring_cut :
    (fuel bufsize head tail : ℕ) (bytes : List ℕ) (rs : List Rec) (header : List ℕ) (b : Batch)
    → length rs < fuel
    → Laid bytes tail rs
    → Sized rs
    → tail + span rs < head
    → head < u64_mod
    → Even bufsize b
    → slice bytes ((tail + span rs) % length bytes) 8 ≡ some header
    → le32 header 0 ≡ perf_record_sample
    → length bytes < (tail + span rs) % length bytes + 52
    → length b.out + event_size * (length (samples rs) + 1) ≤ bufsize
    → read_ring fuel bufsize (record { bytes = bytes; data_head = head; data_tail = tail }) b
      ≡ outside
read_ring_cut fuel bufsize head tail bytes rs header b f l p e m v s t cut room =
    let more : fuel ≡ length rs + suc (fuel - length rs - 1) = omega arith in
    let laid =
      read_ring-Laid (suc (fuel - length rs - 1)) bufsize head tail bytes rs b l p (omega arith) m
        v in
    let even = filled-Even bufsize tail bytes rs b l v in
    ap (λ n. read_ring n bufsize (record { bytes = bytes; data_head = head; data_tail = tail }) b)
      more
    ∙ laid
    ∙ at_cut (fuel - length rs - 1) bufsize
        (record { bytes = bytes; data_head = head; data_tail = tail + span rs }) header
        (filled bufsize b (samples rs)) e s t (omega (arith, even, v)) cut
