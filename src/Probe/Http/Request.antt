-- ===== src/Probe/Http/Request.antt =====
-- What `parse_http_payload` reads out of a request line laid out by RFC 9112.
use stb_e_bpf.Base.{
  take-all, ℕ, ◌-◌, ◌≤◌, ◌<◌, ◌≡◌, ◌≢◌, refl, ap, ◌∙◌, min, false, some, List, [], ◌∷◌, ◌++◌, arith,
  ltb, ◌==◌, length, slice-some, All, codes, strncpy, if◌then◌else◌, take,
}
use stb_e_bpf.Flow.{FlowEvent}
use stb_e_bpf.Probe.Dns.{c_string}
use stb_e_bpf.Probe.Http.{
  strchr, before, header_value, or_else, put_http, request_method, request_path, describe_request,
  parse_http_payload,
}

-- A byte of a method or a target: neither a zero nor a blank.
abbrev pub IsWord : ℕ → Type 0
IsWord c = (0 < c) × (c ≢ 0x20)

c_string-append : (w s : List ℕ) → All IsWord w → c_string (w ++ s) ≡ w ++ c_string s
unfolding c_string
c_string-append [] s h = refl
c_string-append (c ∷ w) s h =
    let z : (c == 0) ≡ false = ground arith in rw z (ap (λ t. c ∷ t) (c_string-append w s h.1))

strchr-append : (w s : List ℕ) → All IsWord w → strchr (w ++ (0x20 ∷ s)) 0x20 ≡ some (0x20 ∷ s)
unfolding strchr
strchr-append [] s h = refl
strchr-append (c ∷ w) s h =
    let z : (c == 0x20) ≡ false = ground arith in rw z (strchr-append w s h.1)

before-append : (w s : List ℕ) → All IsWord w → before (w ++ (0x20 ∷ s)) 0x20 ≡ w
unfolding before
before-append [] s h = refl
before-append (c ∷ w) s h =
    let z : (c == 0x20) ≡ false = ground arith in rw z (ap (λ t. c ∷ t) (before-append w s h.1))

strncpy-short : (size : ℕ) (s : List ℕ) → length s < size → strncpy size s ≡ s
unfolding strncpy
strncpy-short size s h = take-all (size - 1) s (omega arith)

or_else-word : (w s : List ℕ) → 0 < length w → or_else w s ≡ w
or_else-word w s h = let z : (length w == 0) ≡ false = ground arith in rw z refl

-- The host that is told, given the value of the header, which is empty if there is none.
abbrev pub told_host : List ℕ → List ℕ
told_host value = if ltb 0 (length value) then value else codes "unknown"

or_else-told : (value : List ℕ) → or_else value (codes "unknown") ≡ told_host value
or_else-told value = ground arith

put_http-fields :
    (text : List ℕ) (flow : FlowEvent)
    → put_http text flow ≡ record flow { details = take 127 text; service = codes "HTTP" }
unfolding strncpy codes
put_http-fields text flow = refl

-- The line and what follows it.
abbrev pub request_bytes : List ℕ → List ℕ → List ℕ → List ℕ
request_bytes method path rest = method ++ (0x20 ∷ (path ++ (0x20 ∷ rest)))

module _ (method path rest : List ℕ) (m : All IsWord method) (p : All IsWord path) where
  abbrev text : List ℕ
  text = request_bytes method path (c_string rest)

  c_string-request : c_string (request_bytes method path rest) ≡ text
  unfolding c_string
  c_string-request =
      c_string-append method (0x20 ∷ (path ++ (0x20 ∷ rest))) m
      ∙ ap (λ t. method ++ (0x20 ∷ t)) (c_string-append path (0x20 ∷ rest) p)

  request_method-word : length method < 16 → request_method text ≡ method
  unfolding request_method
  request_method-word short =
      let found = strchr-append method (path ++ (0x20 ∷ c_string rest)) m in
      let front = before-append method (path ++ (0x20 ∷ c_string rest)) m in
      rw (request_method, found, front) (strncpy-short 16 method short)

  request_path-word : length path < 256 → request_path text ≡ path
  unfolding request_path
  request_path-word short =
      let found = strchr-append method (path ++ (0x20 ∷ c_string rest)) m in
      let second = strchr-append path (c_string rest) p in
      let front = before-append path (c_string rest) p in
      rw (request_path, found) (rw (second, front) (strncpy-short 256 path short))

  -- A request whose method has 1 to 15 bytes and whose target 1 to 255, none of them a zero or a
  -- blank, in a payload of 10 to 2047 bytes: the event tells the method, the target and the host
  -- that the code's search for the header finds in the text, or "unknown" where it finds none, cut
  -- off at 127 bytes; the service is HTTP, and the event's other fields stay.
  pub parse_http_payload-request :
      (flow : FlowEvent)
      → 0 < length method
      → length method < 16
      → 0 < length path
      → length path < 256
      → 10 ≤ length (request_bytes method path rest)
      → length (request_bytes method path rest) ≤ 2047
      → parse_http_payload
          (request_bytes method path rest)
          (length (request_bytes method path rest))
          flow
          false
        ≡ some (record flow {
          details = take 127 (
              codes "http_req:method="
              ++ (method
                  ++ (codes ",path="
                      ++ (path
                          ++ (codes ",host="
                              ++ told_host (
                                  header_value
                                    (c_string (request_bytes method path rest))
                                    (codes "Host:")
                                    (codes "host:")
                                    256))))));
          service = codes "HTTP";
        })
  unfolding parse_http_payload describe_request
  parse_http_payload-request flow m0 m1 p0 p1 enough small =
      let bytes = request_bytes method path rest in
      let long : ltb (length bytes) 10 ≡ false = ground arith in
      let n : min (length bytes) 2047 ≡ length bytes = ground arith in
      let read =
        slice-some bytes 0 (length bytes) (omega arith)
        ∙ ap some (take-all (length bytes) bytes (omega arith)) in
      let meth : request_method (c_string bytes) ≡ method =
        ap request_method c_string-request ∙ request_method-word m1 in
      let targ : request_path (c_string bytes) ≡ path =
        ap request_path c_string-request ∙ request_path-word p1 in
      rw long (
        rw n (
          rw read (
            rw (meth, targ)
              (rw (or_else-word method (codes "UNKNOWN") m0, or_else-word path (codes "/") p0)
                (rw
                  (or_else-told (header_value (c_string bytes) (codes "Host:") (codes "host:") 256))
                  (ap some (put_http-fields _ flow)))))))
