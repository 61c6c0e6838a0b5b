-- ===== src/Probe/Loop/Safety.antt =====
-- A round, and any run of rounds, keeps the probe's invariants and leaves no event behind.
use stb_e_bpf.Base.{
  ℕ, ◌+◌, ◌*◌, ◌≤◌, ◌≡◌, refl, Bool, true, false, ◌||◌, inl, inr, Bool-cases, Option, none, some,
  List, [], ◌∷◌, arith, ltb, leb, ◌==◌, if◌then◌else◌, length, take, All,
}
use stb_e_bpf.Flow.{FlowEvent, ProcNetEntry}
use stb_e_bpf.FlowTracker.{
  FlowTracker, flow_tracker_update, flow_tracker_get_events, flow_tracker_flush,
}
use stb_e_bpf.FlowTracker.Invariant
use stb_e_bpf.FlowTracker.Runs.{update_from-IsValid, flush-IsValid}
use stb_e_bpf.FlowTracker.Cleanup.{cleanup-IsValid}
use stb_e_bpf.BpfLoader.{Slot, Status}
use stb_e_bpf.BpfLoader.Perf.{Ring, done}
use stb_e_bpf.Serializer.{Output, serialize_batch}
use stb_e_bpf.TcpClient.Descriptors
use stb_e_bpf.TcpClient.Descriptors.{Yields}
use stb_e_bpf.Probe.Capture.{Probe}
use stb_e_bpf.Probe.Capture.Safety.{capture_packet-Safe}
use stb_e_bpf.Probe.Sources.{Ticks, read_bpf_events}
use stb_e_bpf.Probe.Loop.{
  Arrival, Inputs, Loop, Outcome, next, overrun, fault, unfinished, and_then, is_taken,
  capture_loop, read_tables, poll_tables, capture_part, gather, is_due, measure, max_age, max_flows,
  json_size, send_out, has_metric, deliver, round, run,
}
use stb_e_bpf.Probe.Loop.Client.{hand_over-IsValid}

-- What the loop keeps: a valid tracker and client, and no map of ring buffers, as
-- `bpf_loader_init` leaves it.
pub record IsReady (l : Loop) : Type 0 where
  pub tracker : Invariant.IsValid l.probe.tracker
  pub link : Descriptors.IsValid l.link
  pub no_ring : l.status.perf_map_fd ≡ none

abbrev pub Fits : Arrival → Type 0
Fits a = a.len ≤ length a.pkt_buf

-- Frames that fit their buffer, and tables whose lines the reader defines a result for.
pub record IsFeasible (x : Inputs) : Type 0 where
  pub fits : All Fits x.arrivals
  pub readable : (entries : List ProcNetEntry) × (read_tables x ≡ some entries)

-- A part that ends well, or with the write behind `json_buf`.
abbrev pub Ends : {A : Type 0} → (A → Type 0) → Outcome A → Type 0
Ends P (next a) = P a
Ends P overrun = Unit
Ends P fault = ⊥
Ends P unfinished = ⊥

pub and_then-Ends :
    {A B : Type 0} (P : A → Type 0) (Q : B → Type 0) (m : Outcome A) (f : A → Outcome B)
    → Ends P m
    → ((a : A) → P a → Ends Q (f a))
    → Ends Q (and_then m f)
and_then-Ends P Q (next a) f h k = k a h
and_then-Ends P Q overrun f h k = tt
and_then-Ends P Q fault f h k = elim h [ ]
and_then-Ends P Q unfinished f h k = elim h [ ]

capture_loop-IsValid :
    (probe_id : List ℕ) (xs : List Arrival) (this_round taken : ℕ) (p : Probe)
    → All Fits xs
    → Invariant.IsValid p.tracker
    → Yields (λ c. Invariant.IsValid c.1.tracker) (capture_loop probe_id xs this_round taken p)
unfolding capture_loop
capture_loop-IsValid probe_id [] this_round taken p f v = ((taken, p), refl, v)
capture_loop-IsValid probe_id (a ∷ xs) this_round taken p (f, fs) v =
    elim (Bool-cases (a.stop || leb 1000 this_round || a.len == 0)) [
      | inl over ↦ ((taken, p), rw (over, capture_loop) refl, v)
      | inr more ↦
          let (p', e, v') = capture_packet-Safe a.pkt_buf a.len f probe_id a.clock p v in
          let one = if is_taken a then 1 else 0 in
          let (c, e', w) =
            capture_loop-IsValid probe_id xs (this_round + one) (taken + one) p' fs v' in
          (c, rw (more, capture_loop) (rw e e'), w)
    ]

poll_tables-Ends :
    (x : Inputs) (l : Loop) → IsFeasible x → IsReady l → Ends (λ l'. IsReady l') (poll_tables x l)
unfolding poll_tables flow_tracker_update
poll_tables-Ends x l h v =
    let (es, e) = h.readable in
    rw e (record {
      tracker = update_from-IsValid x.poll_clock x.poll_ts 0 l.probe.tracker es v.tracker;
      link = v.link;
      no_ring = v.no_ring;
    })

-- Without a map of ring buffers the poll of the ring buffers does nothing.
pub read_bpf_events-no_ring :
    (fuel : ℕ) (probe_id : List ℕ) (clock : ℕ → Ticks) (status : Status) (cpus : List (Slot × Ring))
    (ft : FlowTracker)
    → status.perf_map_fd ≡ none
    → read_bpf_events fuel probe_id clock status cpus ft
      ≡ done (record { cpus = cpus; tracker = ft; count = 0 })
unfolding read_bpf_events
read_bpf_events-no_ring fuel probe_id clock status cpus ft e = rw (e, read_bpf_events) refl

capture_part-Ends :
    (fuel : ℕ) (probe_id : List ℕ) (x : Inputs) (l : Loop)
    → IsFeasible x
    → IsReady l
    → Ends (λ l'. IsReady l') (capture_part fuel probe_id x l)
unfolding capture_part
capture_part-Ends fuel probe_id x l h v =
    let (c, e, w) = capture_loop-IsValid probe_id x.arrivals 0 0 l.probe h.fits v.tracker in
    let quiet =
      read_bpf_events-no_ring fuel probe_id x.perf_clock l.status l.cpus l.probe.tracker
        v.no_ring in
    rw (quiet, capture_part) (rw e (record { tracker = w; link = v.link; no_ring = v.no_ring }))

pub gather-Ends :
    (bpf : Bool) (fuel : ℕ) (probe_id : List ℕ) (x : Inputs) (l : Loop)
    → IsFeasible x
    → IsReady l
    → Ends (λ l'. IsReady l') (gather bpf fuel probe_id x l)
unfolding gather
gather-Ends true fuel probe_id x l h v =
    and_then-Ends (λ l'. IsReady l') (λ l'. IsReady l') (capture_part fuel probe_id x l)
      (λ l'. poll_tables x l') (capture_part-Ends fuel probe_id x l h v)
      (λ l' v'. poll_tables-Ends x l' h v')
gather-Ends false fuel probe_id x l h v = poll_tables-Ends x l h v

pub measure-IsReady : (x : Inputs) (l : Loop) → IsReady l → IsReady (measure x l).1
unfolding measure
measure-IsReady x l v = elim (Bool-cases (is_due x l)) [
  | inl due ↦
      rw (due, measure)
        (record {
          tracker = cleanup-IsValid l.probe.tracker max_age x.cleanup_ts v.tracker;
          link = v.link;
          no_ring = v.no_ring;
        })
  | inr early ↦ rw (early, measure) v
]

-- After a round nothing is pending.
pub record IsSettled (l : Loop) : Type 0 where
  pub ready : IsReady l
  pub drained : l.probe.tracker.events ≡ []

-- The table was made for `MAX_FLOWS` flows.
pub send_out-Ends :
    (depth event_count : ℕ) (out : Output) (l : Loop)
    → IsReady l
    → Ends (λ l'. IsSettled l') (send_out depth event_count out l)
unfolding send_out
send_out-Ends depth event_count out l v =
    let w = flush-IsValid l.probe.tracker v.tracker in
    let (h, e, vl) = hand_over-IsValid depth l.link (take out.written out.bytes) v.link in
    elim (Bool-cases (ltb json_size out.extent)) [
      | inl over ↦ rw (over, send_out) tt
      | inr inside ↦ elim (Bool-cases (out.written == 0)) [
        | inl empty ↦
            rw (inside, send_out)
              (rw empty (record {
                ready = record { tracker = w; link = v.link; no_ring = v.no_ring };
                drained = unfold flow_tracker_flush in refl;
              }))
        | inr text ↦
            rw (inside, send_out)
              (rw (text, e)
                (record {
                  ready = record { tracker = w; link = vl; no_ring = v.no_ring };
                  drained = unfold flow_tracker_flush in refl;
                }))
      ]
    ]

empty_of_length : (evs : List FlowEvent) → length evs ≡ 0 → evs ≡ []
empty_of_length [] h = refl
empty_of_length (ev ∷ evs) h = absurd (omega arith)

pub deliver-Ends :
    (depth : ℕ) (probe_id : List ℕ) (mp : Option (List ℕ)) (l : Loop)
    → IsReady l
    → Ends (λ l'. IsSettled l') (deliver depth probe_id mp l)
unfolding deliver flow_tracker_get_events
deliver-Ends depth probe_id mp l v =
    let n = (flow_tracker_get_events l.probe.tracker (max_flows * 2)).0 in
    let evs = (flow_tracker_get_events l.probe.tracker (max_flows * 2)).1 in
    let sent = send_out-Ends depth n (serialize_batch evs mp probe_id json_size) l v in
    elim (Bool-cases (ltb 0 n || has_metric mp)) [
      | inl some_event ↦ rw (some_event, deliver) sent
      | inr quiet ↦
          rw (quiet, deliver)
            (record {
              ready = v;
              drained = empty_of_length l.probe.tracker.events (ground (arith, mp));
            })
    ]

pub round-Ends :
    (fuel depth : ℕ) (probe_id : List ℕ) (x : Inputs) (l : Loop)
    → IsFeasible x
    → IsReady l
    → Ends (λ l'. IsSettled l') (round fuel depth probe_id x l)
unfolding round
round-Ends fuel depth probe_id x l h v =
    and_then-Ends (λ l'. IsReady l') (λ l'. IsSettled l') (gather l.use_bpf fuel probe_id x l)
      (λ l1. let (mp, l2) = measure x l1 in deliver depth probe_id mp l2)
      (gather-Ends l.use_bpf fuel probe_id x l h v)
      (λ l1 v1.
        deliver-Ends depth probe_id (measure x l1).0 (measure x l1).1 (measure-IsReady x l1 v1))

-- For any fuel and depth, and any rounds whose frames fit the receive buffer and whose tables are
-- readable: from a valid tracker and client, and without a map of ring buffers, each round comes to
-- its end, or a batch is written behind `json_buf`; there is no other access outside a buffer.
-- The tracker and the client stay valid, and no event is pending after the last round.
pub run-Ends :
    (fuel depth : ℕ) (probe_id : List ℕ) (xs : List Inputs) (l : Loop)
    → All IsFeasible xs
    → IsSettled l
    → Ends (λ l'. IsSettled l') (run fuel depth probe_id xs l)
unfolding run
run-Ends fuel depth probe_id [] l h v = v
run-Ends fuel depth probe_id (x ∷ xs) l (h, hs) v =
    and_then-Ends (λ l'. IsSettled l') (λ l'. IsSettled l') (round fuel depth probe_id x l)
      (λ l'. run fuel depth probe_id xs l') (round-Ends fuel depth probe_id x l h v.ready)
      (λ l' v'. run-Ends fuel depth probe_id xs l' hs v')
