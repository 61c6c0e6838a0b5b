-- ===== src/Trace/Payload/Copy.antt =====
-- What the events of messages hold of the payload, and how the two HTTP programs compare.
use stb_e_bpf.Base.{
  ℕ, ◌+◌, ◌-◌, ◌<◌, ◌≡◌, refl, sym, ap, ◌∙◌, min, true, ◌||◌, inl, inr, Bool-cases, Option, none,
  some, List, [], ◌∷◌, ◌++◌, arith, ltb, leb, if◌then◌else◌, length, length-append, length-take,
  length-drop, length-replicate, get_elem?, get_elem?-append, take, take-length, drop, replicate,
}
use stb_e_bpf.Trace.{Event, Task, Sock, data_len, emit}
use stb_e_bpf.Trace.Payload.{
  Iov, probe_read_user, copy_payload, fill_message, either, zero_event, handle_udp_msg,
  handle_tcp_msg, capture_tcp_msg,
}

-- The copy of a buffer with an address.
abbrev pub copied : ℕ → Iov → ℕ
copied bound iov = min iov.iov_len (bound - 1)

length-probe_read_user : (n : ℕ) (user : List ℕ) → length (probe_read_user n user) ≡ n
unfolding probe_read_user
length-probe_read_user n user = ground (arith, length-take n user, length-replicate {A = ℕ} n 0)

-- A message with a buffer that is not null and not empty, for any length that it claims: the array
-- keeps its 256 bytes, so that nothing is written outside; the first of them are those of the
-- buffer, or zeroes if it cannot be read, as many as there are but at most 255; and a terminator
-- follows them.
pub copy_payload-writes :
    (iov : Iov) (old : List ℕ)
    → iov.has_base ≡ true
    → 0 < iov.iov_len
    → length old ≡ data_len
    → let n = min iov.iov_len 255 in
      (length (copy_payload (some iov) old) ≡ data_len)
      × (take n (copy_payload (some iov) old)
          ≡ (if leb n (length iov.user) then take n iov.user else replicate n 0))
      × (get_elem? (copy_payload (some iov) old) n ≡ some 0)
unfolding copy_payload
copy_payload-writes iov old b l w =
    let n = min iov.iov_len 255 in
    let p = probe_read_user n iov.user in
    let size = length-probe_read_user n iov.user in
    let some_len : ltb 0 iov.iov_len ≡ true = ground arith in
    rw (b, copy_payload)
      (rw some_len (
        omega (arith, length-append p (0 ∷ drop (n + 1) old), length-drop (n + 1) old),
        ap (λ k. take k (p ++ (0 ∷ drop (n + 1) old))) (sym size)
            ∙ (take-length p (0 ∷ drop (n + 1) old) ∙ unfold probe_read_user in refl),
        get_elem?-append p (0 ∷ drop (n + 1) old) n 0 (omega arith),
      ))

-- A message without a buffer: the event carries what the memory of the ring held before.
pub handle_udp_msg-stale :
    (t : Task) (now : ℕ) (sk : Sock) (size direction : ℕ) (old : Event) (rest : List (Option Event))
    (events : List Event)
    → either 53 sk ≡ true
    → (ev : Event) × ((handle_udp_msg t now sk none size direction
          (record { reserved = some old ∷ rest; events = events })).events
        ≡ events ++ (ev ∷ []))
      × (ev.data_bytes ≡ old.data_bytes)
      × (ev.ppid ≡ old.ppid)
unfolding handle_udp_msg emit copy_payload
handle_udp_msg-stale t now sk size direction old rest events dns =
    (fill_message t sk now 3 17 size direction none old, rw (dns, handle_udp_msg) refl, refl, refl)

-- For any message without a buffer, and a reservation whose memory is cleared: the program with
-- the ring buffer and the one with the perf buffer report the same events.
pub capture_tcp_msg-eq-handle_tcp_msg :
    (t : Task) (now : ℕ) (sk : Sock) (size direction : ℕ) (rest : List (Option Event))
    (events : List Event)
    → capture_tcp_msg t now sk size direction events
      ≡ (handle_tcp_msg t now sk none size direction
          (record { reserved = some zero_event ∷ rest; events = events })).events
unfolding capture_tcp_msg handle_tcp_msg emit
capture_tcp_msg-eq-handle_tcp_msg t now sk size direction rest events =
    elim (Bool-cases (either 80 sk || either 443 sk || either 8080 sk)) [
      | inl http ↦ rw (http, capture_tcp_msg, handle_tcp_msg) refl
      | inr other ↦ rw (other, capture_tcp_msg, handle_tcp_msg) refl
    ]
