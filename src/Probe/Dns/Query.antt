-- ===== src/Probe/Dns/Query.antt =====
-- What `parse_dns_payload` reads out of a query that is laid out by RFC 1035.
use stb_e_bpf.Base.{
  All, refl, ℕ, zero, suc, ◌+◌, ◌-◌, ◌≤◌, ◌<◌, min, ◌≡◌, sym, ap, ◌∙◌, false, Option, some, List,
  [], ◌∷◌, ◌++◌, arith, ltb, leb, ◌==◌, length, get_elem?, length-append, get_elem?-append,
  slice-append, slice-behind, slice, All, ◌/◌, ◌%◌, be16, codes, slice-some, true, ◌*◌,
  if◌then◌else◌, strncpy,
}
use mathlib.Core.List.{append-nil, append_assoc, take}
use stb_e_bpf.Probe.Dns.{
  Scan, add_dot, scan_name, c_string, parse_dns_payload, describe_query, FlowEvent, type_str,
}

-- The labels of a name, each with its length before it, and the root label.
unfoldable pub encode_name : List (List ℕ) → List ℕ → List ℕ
encode_name [] rest = 0 ∷ rest
encode_name (label ∷ labels) rest = length label ∷ (label ++ encode_name labels rest)

-- The name as it is written: labels with dots between them.
unfoldable pub more_labels : List (List ℕ) → List ℕ
more_labels [] = []
more_labels (label ∷ labels) = b'.' ∷ (label ++ more_labels labels)

unfoldable pub dotted : List (List ℕ) → List ℕ
dotted [] = []
dotted (label ∷ labels) = label ++ more_labels labels

-- A label has 1 to 63 bytes, none of them zero.
pub record IsLabel (label : List ℕ) : Type 0 where
  pub some_byte : 0 < length label
  pub short : length label < 64
  pub nonzero : All (λ c. 0 < c) label

-- What the bytes of the labels take.
unfoldable pub encoded_size : List (List ℕ) → ℕ
encoded_size [] = 0
encoded_size (label ∷ labels) = length label + 1 + encoded_size labels

abbrev scanned : ℕ → List ℕ → Option Scan
scanned offset name = some (record { offset = offset; name = name; jumped = false })

scanned-eq : (m n : ℕ) (xs ys : List ℕ) → m ≡ n → xs ≡ ys → scanned m xs ≡ scanned n ys
scanned-eq m n xs ys p q = ap (λ k. scanned k xs) p ∙ ap (λ zs. scanned n zs) q

module _ (payload : List ℕ) (len : ℕ) where
  -- One round at the root label.
  scan_root :
      (pre rest : List ℕ) (fuel offset : ℕ) (name : List ℕ)
      → payload ≡ pre ++ (0 ∷ rest)
      → offset ≡ length pre
      → offset < len
      → scan_name (suc fuel) payload len offset name ≡ scanned offset name
  unfolding scan_name
  scan_root pre rest fuel offset name e o inside =
      let at = get_elem?-append pre (0 ∷ rest) offset 0 (omega arith) in
      let here : get_elem? payload offset ≡ some 0 = ap (λ p. get_elem? p offset) e ∙ at in
      let more : leb len offset ≡ false = ground arith in rw (more, here) refl

  -- One round at a label.
  scan_label :
      (pre label tail : List ℕ) (fuel offset : ℕ) (name : List ℕ)
      → payload ≡ pre ++ (length label ∷ (label ++ tail))
      → offset ≡ length pre
      → IsLabel label
      → length (add_dot name) + length label ≤ 255
      → offset + 1 + length label ≤ len
      → scan_name (suc fuel) payload len offset name
        ≡ scan_name fuel payload len (offset + 1 + length label) (add_dot name ++ label)
  unfolding scan_name
  scan_label pre label tail fuel offset name e o l room inside =
      let at = get_elem?-append pre (length label ∷ (label ++ tail)) offset 0 (omega arith) in
      let read =
        slice-append pre (length label ∷ (label ++ tail)) (offset + 1) 1 (length label)
          (omega arith)
        ∙ slice-behind (length label) label tail in
      let here : get_elem? payload offset ≡ some (length label) =
        ap (λ p. get_elem? p offset) e ∙ at in
      let fit : min (length label) (255 - length (add_dot name)) ≡ length label = omega arith in
      let got : slice payload (offset + 1) (min (length label) (255 - length (add_dot name)))
          ≡ some label =
        ap (λ n. slice payload (offset + 1) n) fit
        ∙ (ap (λ p. slice p (offset + 1) (length label)) e ∙ read) in
      let more : leb len offset ≡ false = ground arith in
      let byte : (length label == 0) ≡ false = ground (arith, l.some_byte) in
      let plain : leb 0xC0 (length label) ≡ false = ground (arith, l.short) in
      let whole : ltb len (offset + 1 + length label) ≡ false = ground arith in
      rw (more, here, byte, plain, whole, got) refl

  scan_more :
      (labels : List (List ℕ)) (pre rest : List ℕ) (fuel offset : ℕ) (name : List ℕ)
      → payload ≡ pre ++ encode_name labels rest
      → offset ≡ length pre
      → All IsLabel labels
      → 0 < length name
      → length name + length (more_labels labels) ≤ 255
      → offset + encoded_size labels < len
      → encoded_size labels < fuel
      → scan_name fuel payload len offset name
        ≡ scanned (offset + encoded_size labels) (name ++ more_labels labels)
  unfolding encode_name more_labels encoded_size
  scan_more labels pre rest zero offset name e o good begun room inside f = absurd (omega arith)
  scan_more [] pre rest (suc fuel) offset name e o good begun room inside f =
      scan_root pre rest fuel offset name e o (omega arith)
      ∙ scanned-eq _ _ _ _ (omega arith) (sym (append-nil name))
  scan_more (label ∷ labels) pre rest (suc fuel) offset name e o good begun room inside f =
      let (l, good') = good in
      let dot : add_dot name ≡ name ++ (b'.' ∷ []) =
        ground (arith, length-append label (more_labels labels)) in
      let joined =
        append_assoc (name ++ (b'.' ∷ [])) label (more_labels labels)
        ∙ append_assoc name (b'.' ∷ []) (label ++ more_labels labels) in
      let s1 = length-append label (more_labels labels) in
      let s2 = length-append name (b'.' ∷ []) in
      let s3 = length-append (name ++ (b'.' ∷ [])) label in
      let s4 = length-append pre (length label ∷ label) in
      let s5 = ap length dot in
      let first =
        scan_label pre label (encode_name labels rest) fuel offset name e o l
          (omega (arith, s1, s2, s3, s4, s5)) (omega arith) in
      let next =
        scan_more labels (pre ++ (length label ∷ label)) rest fuel (offset + 1 + length label)
          ((name ++ (b'.' ∷ [])) ++ label)
          (e ∙ sym (append_assoc pre (length label ∷ label) (encode_name labels rest)))
          (omega (arith, s1, s2, s3, s4, s5)) good' (omega (arith, s1, s2, s3, s4, s5, l.some_byte))
          (omega (arith, s1, s2, s3, s4, s5)) (omega arith) (omega arith) in
      first
      ∙ (ap (λ n. scan_name fuel payload len (offset + 1 + length label) (n ++ label)) dot
          ∙ (next ∙ scanned-eq _ _ _ _ (omega arith) joined))

  scan_labels :
      (labels : List (List ℕ)) (pre rest : List ℕ) (fuel offset : ℕ)
      → payload ≡ pre ++ encode_name labels rest
      → offset ≡ length pre
      → All IsLabel labels
      → length (dotted labels) ≤ 255
      → offset + encoded_size labels < len
      → encoded_size labels < fuel
      → scan_name fuel payload len offset []
        ≡ scanned (offset + encoded_size labels) (dotted labels)
  unfolding encode_name dotted encoded_size
  scan_labels labels pre rest zero offset e o good room inside f = absurd (omega arith)
  scan_labels [] pre rest (suc fuel) offset e o good room inside f =
      scan_root pre rest fuel offset [] e o (omega arith) ∙ scanned-eq _ _ _ _ (omega arith) refl
  scan_labels (label ∷ labels) pre rest (suc fuel) offset e o good room inside f =
      let (l, good') = good in
      let s1 = length-append label (more_labels labels) in
      let s2 = length-append pre (length label ∷ label) in
      let first =
        scan_label pre label (encode_name labels rest) fuel offset [] e o l (omega (arith, s1, s2))
          (omega arith) in
      let next =
        scan_more labels (pre ++ (length label ∷ label)) rest fuel (offset + 1 + length label) label
          (e ∙ sym (append_assoc pre (length label ∷ label) (encode_name labels rest)))
          (omega (arith, s1, s2)) good' l.some_byte (omega (arith, s1, s2)) (omega arith)
          (omega arith) in
      first ∙ (next ∙ scanned-eq _ _ _ _ (omega arith) refl)

-- The header of a query with one question.
abbrev pub query_header : ℕ → ℕ → List ℕ
query_header id flags =
    (id / 0x100)
    ∷ (id % 0x100)
    ∷ (flags / 0x100)
    ∷ (flags % 0x100)
    ∷ 0
    ∷ 1
    ∷ 0
    ∷ 0
    ∷ 0
    ∷ 0
    ∷ 0
    ∷ 0
    ∷ []

abbrev pub query_bytes : ℕ → ℕ → List (List ℕ) → ℕ → List ℕ → List ℕ
query_bytes id flags labels qtype rest =
    query_header id flags ++ encode_name labels ((qtype / 0x100) ∷ (qtype % 0x100) ∷ rest)

slice-encode_name :
    (labels : List (List ℕ)) (rest : List ℕ)
    → slice (encode_name labels rest) (encoded_size labels + 1) 2 ≡ slice rest 0 2
unfolding encode_name encoded_size
slice-encode_name [] rest = slice-append (0 ∷ []) rest 1 0 2 (omega arith)
slice-encode_name (label ∷ labels) rest =
    slice-append (length label ∷ label) (encode_name labels rest)
      (length label + 1 + encoded_size labels + 1) (encoded_size labels + 1) 2 (omega arith)
    ∙ slice-encode_name labels rest

c_string-nonzero : (s : List ℕ) → All (λ c. 0 < c) s → c_string s ≡ s
unfolding c_string
c_string-nonzero [] h = refl
c_string-nonzero (c ∷ s) h =
    let byte : (c == 0) ≡ false = ground (arith, h.0) in
    rw byte (ap (λ t. c ∷ t) (c_string-nonzero s h.1))

All-append :
    (xs ys : List ℕ) → All (λ c. 0 < c) xs → All (λ c. 0 < c) ys → All (λ c. 0 < c) (xs ++ ys)
All-append [] ys p q = q
All-append (x ∷ xs) ys p q = (p.0, All-append xs ys p.1 q)

more_labels-nonzero :
    (labels : List (List ℕ)) → All IsLabel labels → All (λ c. 0 < c) (more_labels labels)
unfolding more_labels
more_labels-nonzero [] good = tt
more_labels-nonzero (label ∷ labels) good = (
  omega arith,
  All-append label (more_labels labels) good.0.nonzero (more_labels-nonzero labels good.1),
)

dotted-nonzero : (labels : List (List ℕ)) → All IsLabel labels → All (λ c. 0 < c) (dotted labels)
unfolding dotted
dotted-nonzero [] good = tt
dotted-nonzero (label ∷ labels) good =
    All-append label (more_labels labels) good.0.nonzero (more_labels-nonzero labels good.1)

-- The names that RFC 1035, 3596 and 2782 give to query types.
abbrev pub type_names : List (ℕ × List ℕ)
type_names =
    (1, codes "A")
    ∷ (5, codes "CNAME")
    ∷ (12, codes "PTR")
    ∷ (15, codes "MX")
    ∷ (16, codes "TXT")
    ∷ (28, codes "AAAA")
    ∷ (33, codes "SRV")
    ∷ []

-- The name in a table, and UNKNOWN for a type that is not in it.
unfoldable pub name_in : List (ℕ × List ℕ) → ℕ → List ℕ
name_in [] qtype = codes "UNKNOWN"
name_in ((n, name) ∷ table) qtype =
    let rest = name_in table qtype in if qtype == n then name else rest

type_str-name : (qtype : ℕ) → type_str qtype ≡ name_in type_names qtype
unfolding type_str name_in
type_str-name qtype = ground arith

-- A query with one question for a name of at most 255 characters, whose labels have 1 to 63 bytes
-- that are not zero: the details of the event are its name, in the dotted form, and the name that
-- the RFCs give to its type, UNKNOWN if it is none of A, CNAME, PTR, MX, TXT, AAAA and SRV, cut off
-- at 127 bytes; the event's other fields stay. `len` reaches behind the type.
pub parse_dns_payload-query :
    (id flags qtype len : ℕ) (labels : List (List ℕ)) (rest : List ℕ) (flow : FlowEvent)
    → All IsLabel labels
    → length (dotted labels) ≤ 255
    → encoded_size labels + 15 ≤ len
    → parse_dns_payload (query_bytes id flags labels qtype rest) len flow false
      ≡ some (record flow {
        details = take 127 (
            codes "dns_query:name="
            ++ (dotted labels ++ (codes ",type=" ++ name_in type_names qtype)));
      })
unfolding parse_dns_payload describe_query be16 strncpy
parse_dns_payload-query id flags qtype len labels rest flow good room long =
    let payload = query_bytes id flags labels qtype rest in
    let after : List ℕ = (qtype / 0x100) ∷ (qtype % 0x100) ∷ rest in
    let scan =
      scan_labels payload len labels (query_header id flags) after len 12 refl refl good room
        (omega arith) (omega arith) in
    let read =
      slice-append (query_header id flags) (encode_name labels after) (12 + encoded_size labels + 1)
        (encoded_size labels + 1) 2 (omega arith)
      ∙ (slice-encode_name labels after ∙ slice-some after 0 2 (omega arith)) in
    let name = c_string-nonzero (dotted labels) (dotted-nonzero labels good) in
    let head = slice-some payload 0 8 (omega arith) in
    let enough : ltb len 12 ≡ false = ground arith in
    let typed : ltb (12 + encoded_size labels + 2) len ≡ true = ground arith in
    let value : qtype / 0x100 * 0x100 + qtype % 0x100 ≡ qtype = omega arith in
    rw (enough, head, scan) (rw (typed, read) (rw (name, value) (rw (type_str-name qtype) refl)))
