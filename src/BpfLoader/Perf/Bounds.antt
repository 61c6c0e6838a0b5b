-- ===== src/BpfLoader/Perf/Bounds.antt =====
-- What the reader writes into the buffer that it is given, whatever the rings hold.
use stb_e_bpf.Base.{
  Bool, ℕ, zero, suc, ◌+◌, ◌*◌, ◌≤◌, ◌≡◌, refl, true, false, inl, inr, Bool-cases, Option-cases,
  Option, none, some, List, [], ◌∷◌, arith, ltb, leb, ◌==◌, length, length-append, length-take,
  length-drop, slice, drop, le32, le16, add64, ◌%◌,
}
use stb_e_bpf.BpfLoader.{Slot}
use stb_e_bpf.BpfLoader.Perf.{
  Ring, Batch, Reading, done, outside, running, perf_record_sample, event_size, is_read, no_events,
  copy_sample, take_record, read_ring, put_back, read_cpus, bpf_loader_read_perf_events,
}

-- The bytes that are out are whole events, as many as are counted, and fit the buffer.
pub record Within (bufsize : ℕ) (b : Batch) : Type 0 where
  pub counted : length b.out ≡ event_size * b.nr_events
  pub fits : length b.out ≤ bufsize

-- A result that has not been reached says nothing.
abbrev pub Ends {ℓ} : {A : Type 0} → (A → Type ℓ) → Reading A → Type ℓ
Ends P (done a) = P a
Ends P outside = Unit
Ends P running = Unit

abbrev Kept {ℓ} : {A : Type 0} → (A → Type ℓ) → Option A → Type ℓ
Kept P none = Unit
Kept P (some a) = P a

slice-length : (xs : List ℕ) (off n : ℕ) → Kept (λ ys. length ys ≡ n) (slice xs off n)
unfolding slice
slice-length xs off n = elim (Bool-cases (leb (off + n) (length xs))) [
  | inl inside ↦ rw inside (ground (arith, length-take n (drop off xs), length-drop off xs))
  | inr over ↦ rw over tt
]

take_record-Within :
    (bufsize : ℕ) (bytes : List ℕ) (offset : ℕ) (header : List ℕ) (b : Batch)
    → Within bufsize b
    → Kept (Within bufsize) (take_record bufsize bytes offset header b)
unfolding take_record copy_sample
take_record-Within bufsize bytes offset header b v =
    elim (Bool-cases (le32 header 0 == perf_record_sample)) [
      | inr other ↦ rw other v
      | inl sample ↦ elim (Bool-cases (leb (length b.out + event_size) bufsize)) [
        | inr full ↦ rw (sample, full) v
        | inl room ↦
            let l = slice-length bytes (offset + 12) event_size in
            elim (Option-cases (slice bytes (offset + 12) event_size)) [
              | inl e ↦ rw (sample, room) (rw e tt)
              | inr (event, e) ↦
                  let n : length event ≡ event_size = ground arith in
                  rw (sample, room)
                    (rw e (record {
                      counted = omega (arith, v.counted, length-append b.out event);
                      fits = ground (arith, length-append b.out event);
                    }))
            ]
      ]
    ]

-- The loop ends only at the head, with the batch still in its bounds.
abbrev pub Drained : ℕ → Ring × Batch → Type 0
Drained bufsize (r, b) = (r.data_head ≤ r.data_tail) × Within bufsize b

read_ring-Ends :
    (fuel bufsize : ℕ) (r : Ring) (b : Batch)
    → Within bufsize b
    → Ends (Drained bufsize) (read_ring fuel bufsize r b)
unfolding read_ring
read_ring-Ends zero bufsize r b v = tt
read_ring-Ends (suc fuel) bufsize r b v = elim (Bool-cases (ltb r.data_tail r.data_head)) [
  | inr stop ↦ rw (stop, read_ring) (ground arith)
  | inl go ↦ elim (Option-cases (slice r.bytes (r.data_tail % length r.bytes) 8)) [
    | inl s ↦ rw (go, read_ring) (rw s tt)
    | inr (header, s) ↦
        let kept = take_record-Within bufsize r.bytes (r.data_tail % length r.bytes) header b v in
        elim (Option-cases (take_record bufsize r.bytes (r.data_tail % length r.bytes) header b)) [
          | inl t ↦ rw (go, read_ring) (rw (s, t) tt)
          | inr (b', t) ↦
              let v' : Within bufsize b' = ground arith in
              rw (go, read_ring)
                (rw (s, t)
                  (read_ring-Ends fuel bufsize
                    (record r { data_tail = add64 r.data_tail (le16 header 6) }) b' v'))
        ]
  ]
]

-- Each ring buffer that is read is empty.
abbrev pub Emptied : Bool → Ring → Type 0
Emptied true r = r.data_head ≤ r.data_tail
Emptied false r = Unit

abbrev pub AllRead : ℕ → List (Slot × Ring) → Type 0
AllRead zero cpus = Unit
AllRead (suc n) [] = Unit
AllRead (suc n) ((s, r) ∷ cpus) = Emptied (is_read s) r × AllRead n cpus

abbrev pub Read : ℕ → ℕ → List (Slot × Ring) × Batch → Type 0
Read n bufsize (cpus, b) = AllRead n cpus × Within bufsize b

put_back-Ends :
    (n bufsize : ℕ) (s : Slot) (r : Ring) (m : Reading (List (Slot × Ring) × Batch))
    → Emptied (is_read s) r
    → Ends (Read n bufsize) m
    → Ends (Read (suc n) bufsize) (put_back (s, r) m)
unfolding put_back
put_back-Ends n bufsize s r (done l) e h = ((e, h.0), h.1)
put_back-Ends n bufsize s r outside e h = tt
put_back-Ends n bufsize s r running e h = tt

read_cpus-Ends :
    (n fuel bufsize : ℕ) (cpus : List (Slot × Ring)) (b : Batch)
    → Within bufsize b
    → Ends (Read n bufsize) (read_cpus n fuel bufsize cpus b)
unfolding read_cpus
read_cpus-Ends zero fuel bufsize cpus b v = (tt, v)
read_cpus-Ends (suc n) fuel bufsize [] b v = (tt, v)
read_cpus-Ends (suc n) fuel bufsize ((s, r) ∷ cpus) b v = elim (Bool-cases (is_read s)) [
  | inr idle ↦
      rw (idle, read_cpus)
        (put_back-Ends n bufsize s r _ (rw idle tt) (read_cpus-Ends n fuel bufsize cpus b v))
  | inl used ↦
      rw (used, read_cpus)
        (go (read_ring fuel bufsize r b) used (λ b1 v1. read_cpus-Ends n fuel bufsize cpus b1 v1)
          (read_ring-Ends fuel bufsize r b v))
]
  where
    go :
        (m : Reading (Ring × Batch))
        → is_read s ≡ true
        → ((b1 : Batch)
            → Within bufsize b1
            → Ends (Read n bufsize) (read_cpus n fuel bufsize cpus b1))
        → Ends (Drained bufsize) m
        → Ends (Read (suc n) bufsize) (elim m [
          | outside ↦ outside
          | running ↦ running
          | done (r', b1) ↦ put_back (s, r') (read_cpus n fuel bufsize cpus b1)
        ])
    go (done (r', b1)) used rest h = put_back-Ends n bufsize s r' _ (rw used h.0) (rest b1 h.1)
    go outside used rest h = tt
    go running used rest h = tt

-- Whatever the rings hold, and for any fuel: a call that returns has written whole events, as many
-- as it counts, inside the buffer, and each ring that it reads is empty.
pub bpf_loader_read_perf_events-Ends :
    (nr_cpus fuel bufsize : ℕ) (cpus : List (Slot × Ring))
    → Ends (Read nr_cpus bufsize) (bpf_loader_read_perf_events nr_cpus fuel bufsize cpus)
unfolding bpf_loader_read_perf_events
bpf_loader_read_perf_events-Ends nr_cpus fuel bufsize cpus =
    read_cpus-Ends nr_cpus fuel bufsize cpus no_events
      (record { counted = refl; fits = omega arith })
