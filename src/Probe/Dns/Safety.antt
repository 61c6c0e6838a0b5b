-- ===== src/Probe/Dns/Safety.antt =====
-- `parse_dns_payload` reads only inside the payload, and its loop ends.
use stb_e_bpf.Base.{
  ℕ, zero, suc, ◌+◌, ◌-◌, ◌≤◌, ◌<◌, min, ◌≡◌, inl, inr, Bool, Option, none, some, List, [], ◌∷◌,
  ◌++◌, arith, ltb, leb, Bool-cases, Option-cases, length, take, drop, length-append, length-take,
  slice, slice-some, get_elem?-some,
}
use stb_e_bpf.Flow.{FlowEvent}
use stb_e_bpf.Probe.Dns.{Scan, add_dot, scan_name, describe_query, parse_dns_payload}

-- A scan that ends, with a name that fits its array of 256 bytes.
abbrev Ends : Option Scan → Type 0
Ends none = ⊥
Ends (some s) = length s.name ≤ 255

abbrev IsSome {ℓ} : {A : Type ℓ} → Option A → Type 0
IsSome none = ⊥
IsSome (some a) = Unit

length-add_dot : (name : List ℕ) → length name ≤ 255 → length (add_dot name) ≤ 255
length-add_dot name h = ground (arith, length-append name (b'.' ∷ []))

module _ (payload : List ℕ) (len : ℕ) (fits : len ≤ length payload) where
  label_read :
      (offset label_len : ℕ) (name : List ℕ)
      → offset + 1 + label_len ≤ len
      → (label : List ℕ) × (slice payload (offset + 1) (min label_len (255 - length (add_dot name)))
          ≡ some label)
        × (length label ≤ 255 - length (add_dot name))
  label_read offset label_len name h =
      let n = min label_len (255 - length (add_dot name)) in
      (
        take n (drop (offset + 1) payload),
        slice-some payload (offset + 1) n (omega arith),
        omega (arith, length-take n (drop (offset + 1) payload)),
      )

  scan_name-Ends :
      (fuel offset : ℕ) (name : List ℕ)
      → offset ≤ len
      → len < offset + fuel
      → length name ≤ 255
      → Ends (scan_name fuel payload len offset name)
  unfolding scan_name
  scan_name-Ends zero offset name b f h = absurd (omega arith)
  scan_name-Ends (suc fuel) offset name b f h = elim (Bool-cases (leb len offset)) [
    | inl over ↦ rw over h
    | inr more ↦
        let (label_len, e) = get_elem?-some payload offset (ground arith) in
        let dotted = length-add_dot name h in
        elim (Bool-cases (ltb len (offset + 1 + label_len))) [
          | inl long ↦ ground arith
          | inr short ↦
              let (label, read, size) = label_read offset label_len name (ground arith) in
              let rest = λ (pos : 0 < label_len).
                scan_name-Ends fuel (offset + 1 + label_len) (add_dot name ++ label) (ground arith)
                  (omega arith) (omega (arith, size, dotted, length-append (add_dot name) label)) in
              ground (arith, rest)
        ]
  ]

  -- If the payload holds at least `len` bytes, of which the header takes twelve, then the loop
  -- over the labels ends within its fuel and reads only inside the payload, whatever the labels
  -- say; and the name fits its array of 256 bytes with the terminator.
  pub scan_name-bounded :
      12 ≤ len → (s : Scan) × (scan_name len payload len 12 [] ≡ some s) × (length s.name ≤ 255)
  scan_name-bounded long =
      let ends = scan_name-Ends len 12 [] long (omega arith) (omega arith) in
      elim (Option-cases (scan_name len payload len 12 [])) [
        | inl e ↦ absurd (ground arith)
        | inr (s, e) ↦ (s, e, ground arith)
      ]

  describe_query-IsSome : (s : Scan) (flow : FlowEvent) → IsSome (describe_query payload len s flow)
  unfolding describe_query
  describe_query-IsSome s flow = ground (arith, slice-some payload (s.offset + 1) 2)

  parse-IsSome :
      (flow : FlowEvent) (is_reply : Bool) → IsSome (parse_dns_payload payload len flow is_reply)
  unfolding parse_dns_payload
  parse-IsSome flow is_reply = elim (Bool-cases (ltb len 12)) [
    | inl short ↦ rw short tt
    | inr long ↦
        let (s, e, _) = scan_name-bounded (ground arith) in
        let described = describe_query-IsSome s flow in ground (arith, slice-some payload 0 8)
  ]

  -- If the payload holds at least `len` bytes, then `parse_dns_payload` makes no read outside it
  -- and comes to its end, for queries, replies and malformed payloads alike.
  pub parse_dns_payload-returns :
      (flow : FlowEvent) (is_reply : Bool)
      → (flow' : FlowEvent) × (parse_dns_payload payload len flow is_reply ≡ some flow')
  parse_dns_payload-returns flow is_reply =
      let ends = parse-IsSome flow is_reply in
      elim (Option-cases (parse_dns_payload payload len flow is_reply)) [
        | inl e ↦ absurd (ground arith)
        | inr found ↦ found
      ]
