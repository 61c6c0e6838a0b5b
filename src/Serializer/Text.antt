-- ===== src/Serializer/Text.antt =====
-- What `serialize_batch` writes when the buffer is large enough.
use stb_e_bpf.Base.{
  ℕ, ◌+◌, ◌-◌, ◌≤◌, ◌<◌, ◌≡◌, refl, sym, ap, ◌∙◌, true, false, none, List, [], ◌∷◌, ◌++◌, map,
  arith, leb, length, length-append,
}
use mathlib.Core.List.{append-nil, append_assoc}
use stb_e_bpf.Flow.{FlowEvent}
use stb_e_bpf.Serializer.{
  Output, put_char, print_at, put_flows, put_metric, close_batch, open_batch, serialize_batch,
  flow_json, take_in, comma,
}
use stb_e_bpf.Serializer.Bounds.{serialize_batch-flows}

-- The elements of an array behind its first one, each with its comma.
unfoldable pub more_items : List (List ℕ) → List ℕ
more_items [] = []
more_items (text ∷ texts) = b',' ∷ (text ++ more_items texts)

unfoldable pub items : List (List ℕ) → List ℕ
items [] = []
items (text ∷ texts) = text ++ more_items texts

-- An array's text: its elements in their order, with a comma between two of them.
abbrev pub array_text : List (List ℕ) → List ℕ
array_text texts = b'[' ∷ (items texts ++ (b']' ∷ []))

later_items :
    (size : ℕ) (texts : List (List ℕ)) (out : Output)
    → out.written + length (more_items texts) + 2 < size
    → let done = (put_flows size texts false out).1 in
      (done.bytes ≡ out.bytes ++ more_items texts)
      × (done.written ≡ out.written + length (more_items texts))
unfolding put_flows put_char print_at more_items
later_items size [] out h = (sym (append-nil out.bytes), omega arith)
later_items size (text ∷ texts) out h =
    let e : length (text ++ more_items texts) ≡ length text + length (more_items texts) =
      length-append text (more_items texts) in
    let next = take_in text (print_at size text (comma false out)) in
    let (same, count) = later_items size texts next (omega (arith, e)) in
    let more : leb (size - 2) out.written ≡ false = ground arith in
    let fits : leb (size - (out.written + 1)) (length text) ≡ false = ground (arith, e) in
    rw (more, fits)
      (
        same
            ∙ (append_assoc (out.bytes ++ (b',' ∷ [])) text (more_items texts)
                ∙ append_assoc out.bytes (b',' ∷ []) (text ++ more_items texts)),
        omega (arith, e, count),
      )

put_flows-items :
    (size : ℕ) (texts : List (List ℕ))
    → length (array_text texts) + 1 < size
    → let done = (put_flows size texts true open_batch).1 in
      (done.bytes ≡ b'[' ∷ items texts) × (done.written ≡ length (items texts) + 1)
unfolding put_flows print_at items
put_flows-items size [] h = (refl, refl)
put_flows-items size (text ∷ texts) h =
    let e : length (text ++ more_items texts) ≡ length text + length (more_items texts) =
      length-append text (more_items texts) in
    let e1 = length-append (text ++ more_items texts) (b']' ∷ []) in
    let next = take_in text (print_at size text open_batch) in
    let (same, count) = later_items size texts next (omega (arith, e, e1)) in
    let more : leb (size - 2) 1 ≡ false = ground (arith, e, e1) in
    let fits : leb (size - 1) (length text) ≡ false = ground (arith, e, e1) in
    rw (more, fits) (same, omega (arith, e, count))

-- A batch without a metric whose array, of the events' texts in their order with a comma between
-- two of them, leaves a byte for the terminator and one more is written in full: the bytes are
-- the array's text, the returned length is its length, and all writes are inside the buffer.
pub serialize_batch-array :
    (events : List FlowEvent) (probe_id : List ℕ) (size : ℕ)
    → length (array_text (map (λ e. flow_json e probe_id) events)) + 1 < size
    → let out = serialize_batch events none probe_id size in
      (out.bytes ≡ array_text (map (λ e. flow_json e probe_id) events))
      × (out.written ≡ length out.bytes)
      × (out.extent ≤ size)
unfolding serialize_batch put_metric close_batch put_char
serialize_batch-array events probe_id size h =
    let texts = map (λ e. flow_json e probe_id) events in
    let (same, count) = put_flows-items size texts h in
    let e1 = length-append (items texts) (b']' ∷ []) in
    let (filled, below, inside, last) =
      serialize_batch-flows events probe_id size (omega (arith, e1)) in
    (ap (λ bs. bs ++ (b']' ∷ [])) same, sym filled, inside.1 (omega (arith, count, e1)))
