-- ===== src/Probe/Dns.antt =====
-- `parse_dns_payload` of src/main.c. The payload is the list of the bytes from the DNS header to
-- the end of the receive buffer. A read outside it is `none`, and so is a loop that has not come
-- to its end within its fuel.
pub mod Safety
pub mod Query
use stb_e_bpf.Base.{
  ℕ, zero, suc, ◌+◌, ◌-◌, ◌*◌, ◌/◌, ◌%◌, ◌^◌, ◌≤◌, ◌<◌, min, max, bit_and, bit_or, bit_xor, ◌≡◌,
  refl, sym, ap, ◌∙◌, ◌≢◌, ◌↔◌, ◌⊎◌, inl, inr, Bool, true, false, not, ◌&&◌, ◌||◌, Option, none,
  some, List, [], ◌∷◌, ◌++◌, map, arith, ltb, leb, ◌==◌, if◌then◌else◌, ==_iff, ltb→lt, Bool-cases,
  Option-cases, ◌>>=◌, length, get_elem?, get_or, set, modify, take, drop, replicate, length-append,
  length-set, length-modify, length-take, length-drop, length-replicate, slice, slice-some, All,
  add64, sub64, add32, has_bits, be16, be32, le16, le32, u32_mod, u64_mod, codes, strncpy,
  length-strncpy, decimal,
}
use stb_e_bpf.Flow.{FlowEvent}

-- Where the loop over the labels stops.
pub record Scan : Type 0 where
  pub offset : ℕ
  pub name : List ℕ
  pub jumped : Bool

-- `name[name_len++] = '.'`, for a name that has begun and has room.
abbrev pub add_dot : List ℕ → List ℕ
add_dot name = if ltb 0 (length name) && ltb (length name) 255 then name ++ (b'.' ∷ []) else name

-- The loop over the labels, with what it has read of the name.
unfoldable pub scan_name : ℕ → List ℕ → ℕ → ℕ → List ℕ → Option Scan
scan_name zero payload len offset name = none
scan_name (suc fuel) payload len offset name =
    if leb len offset then some (record { offset = offset; name = name; jumped = false }) else do
      label_len ← get_elem? payload offset
      if label_len == 0
          then some (record { offset = offset; name = name; jumped = false })
          else if leb 0xC0 label_len
          then some (record { offset = offset; name = name; jumped = true })
          else if ltb len (offset + 1 + label_len)
          then some (record { offset = offset + 1; name = name; jumped = false })
          else do
            label ← slice payload (offset + 1) (min label_len (255 - length (add_dot name)))
            scan_name fuel payload len (offset + 1 + label_len) (add_dot name ++ label)

-- A `char` array as `%s` prints it: up to its first zero.
unfoldable pub c_string : List ℕ → List ℕ
c_string [] = []
c_string (c ∷ s) = if c == 0 then [] else c ∷ c_string s

-- The name of a query type.
unfoldable pub type_str : ℕ → List ℕ
type_str qtype =
    if qtype == 1
    then codes "A"
    else if qtype == 28
    then codes "AAAA"
    else if qtype == 5
    then codes "CNAME"
    else if qtype == 12
    then codes "PTR"
    else if qtype == 15
    then codes "MX"
    else if qtype == 16
    then codes "TXT"
    else if qtype == 33
    then codes "SRV"
    else codes "UNKNOWN"

abbrev pub put_details : List ℕ → FlowEvent → FlowEvent
put_details text flow = record flow { details = strncpy 128 text }

-- What follows the loop: the query type, if it is inside the payload.
unfoldable pub describe_query : List ℕ → ℕ → Scan → FlowEvent → Option FlowEvent
describe_query payload len s flow =
    if not s.jumped && ltb (s.offset + 2) len
    then (slice payload (s.offset + 1) 2 >>= λ q. some (
        put_details
          (codes "dns_query:name=" ++ (c_string s.name ++ (codes ",type=" ++ type_str (be16 q 0))))
          flow))
    else some (put_details (codes "dns_query:name=" ++ c_string s.name) flow)

-- `parse_dns_payload`. Its pointers are not null. The fuel of the loop is the payload's length.
unfoldable pub parse_dns_payload : List ℕ → ℕ → FlowEvent → Bool → Option FlowEvent
parse_dns_payload payload len flow is_reply = if ltb len 12 then some flow else do
  header ← slice payload 0 8
  if is_reply
      then some (
          put_details
            (codes "dns_reply:rcode="
              ++ (decimal (be16 header 2 % 0x10) ++ (codes ",ancount=" ++ decimal (be16 header 6))))
            flow)
      else if be16 header 4 == 0
      then some flow
      else do s ← scan_name len payload len 12 []; describe_query payload len s flow
