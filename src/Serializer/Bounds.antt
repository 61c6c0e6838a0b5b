-- ===== src/Serializer/Bounds.antt =====
-- How far `serialize_batch` writes.
use stb_e_bpf.Base.{
  ℕ, ◌+◌, ◌-◌, ◌≤◌, ◌<◌, ◌≡◌, refl, ◌↔◌, inl, inr, Bool, true, false, none, some, List, [], ◌∷◌,
  ◌++◌, map, arith, leb, Bool-cases, length, length-append, length-take,
}
use stb_e_bpf.Flow.{FlowEvent}
use stb_e_bpf.Serializer.{
  Output, put_char, print_at, put_flows, put_metric, close_batch, open_batch, serialize_batch,
  flow_json, take_in, cut_off, comma,
}

-- While events are put: everything is inside the buffer, and one byte is left at least.
pub record Inside (size : ℕ) (out : Output) : Type 0 where
  pub room : out.written < size
  pub inside : out.extent ≤ size
  pub filled : length out.bytes ≡ out.written

comma-Inside :
    (size : ℕ) (first : Bool) (out : Output)
    → out.written < size - 2
    → Inside size out
    → Inside size (comma first out)
unfolding put_char
comma-Inside size true out h v = v
comma-Inside size false out h v = record {
  room = omega arith;
  inside = omega arith;
  filled = omega (arith, v.filled, length-append out.bytes (b',' ∷ []));
}

take_in-Inside :
    (size : ℕ) (text : List ℕ) (out : Output)
    → length text < size - out.written
    → Inside size out
    → Inside size (take_in text (print_at size text out))
unfolding print_at
take_in-Inside size text out h v = record {
  room = omega arith;
  inside = omega arith;
  filled = omega (arith, v.filled, length-append out.bytes text);
}

cut_off-Inside :
    (size : ℕ) (text : List ℕ) (out : Output)
    → 3 < size
    → size - out.written ≤ length text
    → Inside size out
    → Inside size (cut_off size text (print_at size text out))
unfolding print_at
cut_off-Inside size text out big h v = record {
  room = omega arith;
  inside = omega (arith, v.inside, v.room);
  filled =
      omega
        (arith, v.filled, length-append out.bytes text, length-take (size - 2) (out.bytes ++ text));
}

pub put_flows-Inside :
    (size : ℕ) (texts : List (List ℕ)) (first : Bool) (out : Output)
    → 3 < size
    → Inside size out
    → Inside size (put_flows size texts first out).1
unfolding put_flows
put_flows-Inside size [] first out big v = v
put_flows-Inside size (text ∷ texts) first out big v =
    elim (Bool-cases (leb (size - 2) out.written)) [
      | inl full ↦ rw full v
      | inr more ↦
          let v1 = comma-Inside size first out (ground arith) v in
          elim (Bool-cases (leb (size - (comma first out).written) (length text))) [
            | inl cut ↦
                rw (more, cut) (cut_off-Inside size text (comma first out) big (ground arith) v1)
            | inr fits ↦
                rw (more, fits)
                  (put_flows-Inside size texts false _ big
                    (take_in-Inside size text (comma first out) (ground arith) v1))
          ]
    ]

pub open-Inside : (size : ℕ) → 3 < size → Inside size open_batch
open-Inside size big = record { room = omega arith; inside = omega arith; filled = refl }

-- The state before the metric.
abbrev pub flows_out : List FlowEvent → List ℕ → ℕ → Bool × Output
flows_out events probe_id size =
    put_flows size (map (λ e. flow_json e probe_id) events) true open_batch

-- Without a metric, and with a buffer of at least four bytes: the returned length is that of the
-- bytes written, at most the size of the buffer; and the writes stay inside the buffer exactly if
-- the returned length is less than its size. At most one byte is written behind the end.
pub serialize_batch-flows :
    (events : List FlowEvent) (probe_id : List ℕ) (size : ℕ)
    → 3 < size
    → let out = serialize_batch events none probe_id size in
      (length out.bytes ≡ out.written)
      × (out.written ≤ size)
      × ((out.extent ≤ size) ↔ (out.written < size))
      × (out.extent ≤ size + 1)
unfolding serialize_batch put_metric close_batch put_char
serialize_batch-flows events probe_id size big =
    let v =
      put_flows-Inside size (map (λ e. flow_json e probe_id) events) true open_batch big
        (open-Inside size big) in
    let o = (flows_out events probe_id size).1 in
    (
      omega (arith, v.filled, length-append o.bytes (b']' ∷ [])),
      omega (arith, v.room),
      (λ h. omega (arith, v.room), λ h. omega (arith, v.room, v.inside)),
      omega (arith, v.room, v.inside),
    )

-- One event whose text is two bytes shorter than the buffer: the terminator is written one byte
-- behind the buffer's end.
pub serialize_batch-one_past :
    (event : FlowEvent) (probe_id : List ℕ) (size : ℕ)
    → 3 < size
    → length (flow_json event probe_id) ≡ size - 2
    → (serialize_batch (event ∷ []) none probe_id size).extent ≡ size + 1
unfolding serialize_batch put_flows put_metric close_batch put_char print_at
serialize_batch-one_past event probe_id size big e = ground arith

-- A metric that no longer fits behind the events is taken in all the same, so that the closing
-- bracket and the terminator are written behind the end of the buffer.
pub serialize_batch-metric_past :
    (events : List FlowEvent) (metric probe_id : List ℕ) (size : ℕ)
    → 3 < size
    → (flows_out events probe_id size).1.written < size - 2
    → size < (flows_out events probe_id size).1.written + length metric + 2
    → size < (serialize_batch events (some metric) probe_id size).extent
unfolding serialize_batch put_metric close_batch put_char print_at
serialize_batch-metric_past events metric probe_id size big room long = ground arith
