-- ===== src/Probe/Http.antt =====
-- `parse_http_payload` of src/main.c. The payload is copied into a buffer and read there as a C
-- string; a read outside the payload is `none`.
pub mod Request
use stb_e_bpf.Base.{
  ℕ, ◌+◌, ◌-◌, ◌*◌, ◌%◌, ◌^◌, ◌≤◌, ◌≡◌, refl, inl, inr, min, Bool, true, false, ◌&&◌, ◌||◌, Option,
  none, some, List, [], ◌∷◌, ◌++◌, ltb, leb, ◌==◌, if◌then◌else◌, Bool-cases, ◌>>=◌, length, get_or,
  drop, slice, slice-some, u32_mod, codes, strncpy, decimal, arith, take,
}
use stb_e_bpf.Flow.{FlowEvent}
use stb_e_bpf.Probe.Dns.{c_string, put_details}

-- `strchr(s, c)` for a `c` that is not zero: the rest of the string from there.
unfoldable pub strchr : List ℕ → ℕ → Option (List ℕ)
strchr [] c = none
strchr (x ∷ s) c = if x == c then some (x ∷ s) else strchr s c

-- What stands before the place that `strchr` finds.
unfoldable pub before : List ℕ → ℕ → List ℕ
before [] c = []
before (x ∷ s) c = if x == c then [] else x ∷ before s c

abbrev pub to_lower : ℕ → ℕ
to_lower c = if leb b'A' c && leb c b'Z' then c + 32 else c

-- Whether the string begins with the other, without regard to case.
unfoldable pub begins : List ℕ → List ℕ → Bool
begins s [] = true
begins [] (y ∷ t) = false
begins (x ∷ s) (y ∷ t) = to_lower x == to_lower y && begins s t

-- `strcasestr(s, t)` for a `t` that is not empty.
unfoldable pub strcasestr : List ℕ → List ℕ → Option (List ℕ)
strcasestr [] t = none
strcasestr (x ∷ s) t = if begins (x ∷ s) t then some (x ∷ s) else strcasestr s t

abbrev pub is_space : ℕ → Bool
is_space c = c == 0x20 || leb 9 c && leb c 13

unfoldable pub skip_blank : (ℕ → Bool) → List ℕ → List ℕ
skip_blank blank [] = []
skip_blank blank (c ∷ s) = if blank c then skip_blank blank s else c ∷ s

-- The number that the leading digits make, behind one already read.
unfoldable pub read_digits : ℕ → List ℕ → ℕ
read_digits n [] = n
read_digits n (c ∷ s) =
    let more = read_digits (n * 10 + (c - b'0')) s in if leb b'0' c && leb c b'9' then more else n

-- `atoi` as the C library of a 32-bit machine computes it, `(int) strtol(s, NULL, 10)`, as a
-- 32-bit word: the number is kept within the 32 bits of a `long`.
unfoldable pub atoi_of : List ℕ → ℕ
atoi_of [] = 0
atoi_of (c ∷ s) =
    if c == b'-'
    then (u32_mod - min (read_digits 0 s) (2 ^ 31)) % u32_mod
    else if c == b'+'
    then min (read_digits 0 s) (2 ^ 31 - 1)
    else min (read_digits 0 (c ∷ s)) (2 ^ 31 - 1)

abbrev pub atoi : List ℕ → ℕ
atoi s = atoi_of (skip_blank is_space s)

-- `%d` of a 32-bit word.
abbrev pub signed : ℕ → List ℕ
signed w = if ltb w (2 ^ 31) then decimal w else b'-' ∷ decimal (u32_mod - w)

-- The loop that copies a header's value: up to the end of the line and at most `n` bytes.
unfoldable pub line_value : List ℕ → List ℕ
line_value [] = []
line_value (c ∷ s) = if c == 13 || c == 10 then [] else c ∷ line_value s

-- The value of the header that one of the two calls of `strcasestr` finds.
unfoldable pub header_value : List ℕ → List ℕ → List ℕ → ℕ → List ℕ
header_value buf name lower size = elim (strcasestr buf name) [
  | some h ↦ strncpy size (line_value (skip_blank (λ c. c == 0x20) (drop (length name) h)))
  | none ↦ elim (strcasestr buf lower) [
    | some h ↦ strncpy size (line_value (skip_blank (λ c. c == 0x20) (drop (length lower) h)))
    | none ↦ []
  ]
]

-- `s[0] ? s : other`.
abbrev pub or_else : List ℕ → List ℕ → List ℕ
or_else s other = if length s == 0 then other else s

abbrev pub put_http : List ℕ → FlowEvent → FlowEvent
put_http text flow = record (put_details text flow) { service = strncpy 32 (codes "HTTP") }

-- A response.
unfoldable pub describe_response : List ℕ → FlowEvent → FlowEvent
describe_response buf flow =
    let status_code : ℕ = elim (strchr buf 0x20) [ some sp ↦ atoi (drop 1 sp) | none ↦ 0 ] in
    let ct_value = header_value buf (codes "Content-Type:") (codes "content-type:") 128 in
    if get_or buf 0 0 == b'H'
      && get_or buf 1 0 == b'T'
      && get_or buf 2 0 == b'T'
      && get_or buf 3 0 == b'P'
    then put_http
        (codes "http_resp:status="
          ++ (signed status_code ++ (codes ",content_type=" ++ or_else ct_value (codes "unknown"))))
        flow
    else flow

-- The method, in front of the first blank.
unfoldable pub request_method : List ℕ → List ℕ
request_method buf = elim (strchr buf 0x20) [ some sp ↦ strncpy 16 (before buf 0x20) | none ↦ [] ]

-- The path, between the first blank and the second.
unfoldable pub request_path : List ℕ → List ℕ
request_path buf = elim (strchr buf 0x20) [
  | some sp ↦ elim (strchr (drop 1 sp) 0x20) [
    | some path_end ↦ strncpy 256 (before (drop 1 sp) 0x20)
    | none ↦ []
  ]
  | none ↦ []
]

-- A request.
unfoldable pub describe_request : List ℕ → FlowEvent → FlowEvent
describe_request buf flow =
    let host = header_value buf (codes "Host:") (codes "host:") 256 in
    put_http
      (codes "http_req:method="
        ++ (or_else (request_method buf) (codes "UNKNOWN")
            ++ (codes ",path="
                ++ (or_else (request_path buf) (codes "/")
                    ++ (codes ",host=" ++ or_else host (codes "unknown"))))))
      flow

-- `parse_http_payload`. Its pointers are not null.
unfoldable pub parse_http_payload : List ℕ → ℕ → FlowEvent → Bool → Option FlowEvent
parse_http_payload payload len flow is_response = if ltb len 10 then some flow else do
  copied ← slice payload 0 (min len 2047)
  let buf = c_string copied
  some (if is_response then describe_response buf flow else describe_request buf flow)

pub parse_http_payload-returns :
    (payload : List ℕ) (len : ℕ)
    → len ≤ length payload
    → (flow : FlowEvent) (is_response : Bool)
    → (flow' : FlowEvent) × (parse_http_payload payload len flow is_response ≡ some flow')
unfolding parse_http_payload
parse_http_payload-returns payload len fits flow is_response = elim (Bool-cases (ltb len 10)) [
  | inl short ↦ (flow, rw short refl)
  | inr long ↦
      let e = slice-some payload 0 (min len 2047) (ground arith) in
      let buf = c_string (take (min len 2047) payload) in
      (
        if is_response then describe_response buf flow else describe_request buf flow,
        rw (long, e) refl,
      )
]
