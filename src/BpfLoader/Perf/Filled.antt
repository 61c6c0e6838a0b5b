-- ===== src/BpfLoader/Perf/Filled.antt =====
-- What the records of a ring buffer add to a batch.
use stb_e_bpf.Base.{
  ℕ, suc, ◌+◌, ◌-◌, ◌*◌, ◌/◌, ◌%◌, ◌≤◌, ◌<◌, ◌≡◌, ◌≢◌, refl, sym, ◌∙◌, true, false, inl, inr,
  Bool-cases, Option, none, some, List, [], ◌∷◌, ◌++◌, arith, leb, ◌==◌, min, length, length-append,
  slice, take, le16, le32,
}
use mathlib.Core.List.{append-nil, append_assoc}
use stb_e_bpf.BpfLoader.Perf.{Batch, perf_record_sample, event_size, copy_sample, take_record}

-- A record in the ring: its header, its size, and the event of a sample.
pub record Rec : Type 0 where
  pub header : List ℕ
  pub size : ℕ
  pub event : Option (List ℕ)

-- The bytes behind the header of a sample are its event.
abbrev pub Holds : List ℕ → ℕ → List ℕ → Option (List ℕ) → Type 0
Holds bytes offset header none = le32 header 0 ≢ perf_record_sample
Holds bytes offset header (some event) =
    (le32 header 0 ≡ perf_record_sample)
    × (slice bytes (offset + 12) event_size ≡ some event)
    × (length event ≡ event_size)

-- The records from a position on: each has a size, and none is cut by the ring's end.
abbrev pub Laid : List ℕ → ℕ → List Rec → Type 0
Laid bytes tail [] = Unit
Laid bytes tail (r ∷ rs) =
    (slice bytes (tail % length bytes) 8 ≡ some r.header)
    × (le16 r.header 6 ≡ r.size)
    × Holds bytes (tail % length bytes) r.header r.event
    × Laid bytes (tail + r.size) rs

unfoldable pub span : List Rec → ℕ
span [] = 0
span (r ∷ rs) = r.size + span rs

abbrev pub Sized : List Rec → Type 0
Sized [] = Unit
Sized (r ∷ rs) = (0 < r.size) × Sized rs

-- The events of the samples, in order.
unfoldable pub samples : List Rec → List (List ℕ)
samples [] = []
samples (r ∷ rs) = elim r.event [ none ↦ samples rs | some event ↦ event ∷ samples rs ]

unfoldable pub concat : List (List ℕ) → List ℕ
concat [] = []
concat (xs ∷ xss) = xs ++ concat xss

-- A batch with the events that still fit it.
abbrev pub filled : ℕ → Batch → List (List ℕ) → Batch
filled bufsize b events = record {
  out = b.out ++ concat (take (bufsize / event_size - b.nr_events) events);
  nr_events = b.nr_events + min (length events) (bufsize / event_size - b.nr_events);
}

-- Each event of the batch has its size.
abbrev pub Even : ℕ → Batch → Type 0
Even bufsize b = (length b.out ≡ event_size * b.nr_events) × (length b.out ≤ bufsize)

pub filled_none : (bufsize : ℕ) (b : Batch) → filled bufsize b [] ≡ b
unfolding concat
filled_none bufsize b = elim (Bool-cases (0 == (bufsize / event_size - b.nr_events))) [
  | inl z ↦
      let e : bufsize / event_size - b.nr_events ≡ 0 = ground arith in
      rw (e, take) (ground (arith, append-nil b.out))
  | inr s ↦
      let e : bufsize / event_size - b.nr_events ≡ suc (bufsize / event_size - b.nr_events - 1) =
        ground arith in
      rw (e, take) (ground (arith, append-nil b.out))
]

abbrev pub appended : Batch → List ℕ → Batch
appended b event = record { out = b.out ++ event; nr_events = b.nr_events + 1 }

filled-room :
    (bufsize : ℕ) (b : Batch) (event : List ℕ) (events : List (List ℕ)) (k : ℕ)
    → bufsize / event_size - b.nr_events ≡ suc k
    → filled bufsize b (event ∷ events) ≡ filled bufsize (appended b event) events
unfolding concat
filled-room bufsize b event events k e =
    let e' : bufsize / event_size - (b.nr_events + 1) ≡ k = omega arith in
    let n : b.nr_events + min (suc (length events)) (suc k)
        ≡ b.nr_events + 1 + min (length events) k =
      omega arith in
    rw (e, take) (rw e' (ground (arith, append_assoc b.out event (concat (take k events)), n)))

filled-full :
    (bufsize : ℕ) (b : Batch) (events : List (List ℕ))
    → bufsize / event_size - b.nr_events ≡ 0
    → filled bufsize b events ≡ b
unfolding concat
filled-full bufsize b events e = rw (e, take) (ground (arith, append-nil b.out))

-- What one record adds, against the rest of the ring.
copy_sample-fills :
    (bufsize : ℕ) (bytes : List ℕ) (offset : ℕ) (event : List ℕ) (events : List (List ℕ))
    (b : Batch)
    → slice bytes offset event_size ≡ some event
    → length event ≡ event_size
    → Even bufsize b
    → (b' : Batch) × (copy_sample bufsize bytes offset b ≡ some b')
      × Even bufsize b'
      × (filled bufsize b' events ≡ filled bufsize b (event ∷ events))
unfolding copy_sample
copy_sample-fills bufsize bytes offset event events b s l v =
    elim (Bool-cases (leb (length b.out + event_size) bufsize)) [
      | inl room ↦
          let k : bufsize / event_size - b.nr_events
              ≡ suc (bufsize / event_size - b.nr_events - 1) =
            ground (arith, v) in
          (
            appended b event,
            rw room (rw s refl),
            (
              omega (arith, v, length-append b.out event),
              ground (arith, length-append b.out event),
            ),
            sym (filled-room bufsize b event events _ k),
          )
      | inr full ↦
          let k : bufsize / event_size - b.nr_events ≡ 0 = ground (arith, v) in
          (
            b,
            rw full refl,
            v,
            filled-full bufsize b events k ∙ sym (filled-full bufsize b (event ∷ events) k),
          )
    ]

pub take_record-fills :
    (bufsize : ℕ) (bytes : List ℕ) (offset : ℕ) (header : List ℕ) (event : Option (List ℕ))
    (rs : List Rec) (size : ℕ) (b : Batch)
    → Holds bytes offset header event
    → Even bufsize b
    → (b' : Batch) × (take_record bufsize bytes offset header b ≡ some b')
      × Even bufsize b'
      × (filled bufsize b' (samples rs)
          ≡ filled bufsize b
              (samples (record { header = header; size = size; event = event } ∷ rs)))
unfolding take_record samples
take_record-fills bufsize bytes offset header none rs size b h v =
    let other : (le32 header 0 == perf_record_sample) ≡ false = ground arith in
    (b, rw other refl, v, refl)
take_record-fills bufsize bytes offset header (some event) rs size b (t, s, l) v =
    let sample : (le32 header 0 == perf_record_sample) ≡ true = ground arith in
    rw sample (copy_sample-fills bufsize bytes (offset + 12) event (samples rs) b s l v)
