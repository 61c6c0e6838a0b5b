-- ===== src/Probe/Loop/Spent.antt =====
-- The main loop once its client has given up: it goes on gathering events and drops them.
use stb_e_bpf.Base.{
  ◌*◌, add64, ◌+◌, ℕ, ◌≡◌, refl, ◌∙◌, Bool, true, false, ◌||◌, inl, inr, Bool-cases, Option-cases,
  Option, none, some, List, [], ◌∷◌, arith, ltb, ◌==◌, take, All,
}
use stb_e_bpf.FlowTracker.{flow_tracker_get_events}
use stb_e_bpf.Serializer.{Output, serialize_batch}
use stb_e_bpf.TcpClient.{Link}
use stb_e_bpf.TcpClient.Send.{tcp_client_is_connected, tcp_client_reconnect}
use stb_e_bpf.TcpClient.Descriptors.{Yields}
use stb_e_bpf.TcpClient.GivesUp.{attempt, reconnect, IsSpent, Idle, attempt-spent}
use stb_e_bpf.Probe.Sources.{Polled, read_bpf_events}
use stb_e_bpf.BpfLoader.Perf.{Reading, done, outside, running}
use stb_e_bpf.Probe.Capture.{Probe}
use stb_e_bpf.Probe.Loop.{
  Inputs, Loop, Outcome, next, overrun, fault, unfinished, and_then, or_fault, capture_loop,
  read_tables, poll_tables, capture_part, gather, measure, has_metric, max_flows, json_size,
  second_try, hand_over, send_out, deliver, round, run,
}
use stb_e_bpf.Probe.Loop.Safety.{IsFeasible, IsSettled, Ends, and_then-Ends, round-Ends}

-- What a part leaves alone, if it comes to its end.
abbrev Always : (Loop → Type 0) → Outcome Loop → Type 0
Always P (next l) = P l
Always P overrun = Unit
Always P fault = Unit
Always P unfinished = Unit

abbrev SameClient : Loop → Loop → Type 0
SameClient l l' = (l'.link ≡ l.link) × (l'.total_events ≡ l.total_events)

poll_tables-Always : (x : Inputs) (l : Loop) → Always (SameClient l) (poll_tables x l)
unfolding poll_tables
poll_tables-Always x l = elim (Option-cases (read_tables x)) [
  | inl e ↦ rw (e, poll_tables) tt
  | inr (es, e) ↦ rw (e, poll_tables) (refl, refl)
]

capture_part-Always :
    (fuel : ℕ) (probe_id : List ℕ) (x : Inputs) (l : Loop)
    → Always (SameClient l) (capture_part fuel probe_id x l)
unfolding capture_part
capture_part-Always fuel probe_id x l =
    go (read_bpf_events fuel probe_id x.perf_clock l.status l.cpus l.probe.tracker)
  where
    caught :
        (polled : Polled) (m : Option (ℕ × Probe))
        → Always (SameClient l) (
            and_then (or_fault m) λ c. next (record l {
              probe = c.1;
              cpus = polled.cpus;
              total_packets = add64 l.total_packets (polled.count + c.0);
            }))
    caught polled none = tt
    caught polled (some c) = (refl, refl)

    go :
        (m : Reading Polled)
        → Always (SameClient l) (elim m [
          | outside ↦ fault
          | running ↦ unfinished
          | done polled ↦
              and_then
                (or_fault (
                  capture_loop probe_id x.arrivals polled.count 0
                    (record (l.probe) { tracker = polled.tracker })))
                λ c. next (record l {
                  probe = c.1;
                  cpus = polled.cpus;
                  total_packets = add64 l.total_packets (polled.count + c.0);
                })
        ])
    go (done polled) = caught polled (
        capture_loop probe_id x.arrivals polled.count 0
          (record (l.probe) { tracker = polled.tracker }))
    go outside = tt
    go running = tt

gather-Always :
    (bpf : Bool) (fuel : ℕ) (probe_id : List ℕ) (x : Inputs) (l : Loop)
    → Always (SameClient l) (gather bpf fuel probe_id x l)
unfolding gather
gather-Always false fuel probe_id x l = poll_tables-Always x l
gather-Always true fuel probe_id x l =
    go (capture_part fuel probe_id x l) (capture_part-Always fuel probe_id x l)
  where
    move :
        (l1 : Loop) (m : Outcome Loop)
        → SameClient l l1
        → Always (SameClient l1) m
        → Always (SameClient l) m
    move l1 (next l2) h k = (k.0 ∙ h.0, k.1 ∙ h.1)
    move l1 overrun h k = tt
    move l1 fault h k = tt
    move l1 unfinished h k = tt

    go :
        (m : Outcome Loop)
        → Always (SameClient l) m
        → Always (SameClient l) (and_then m (λ l'. poll_tables x l'))
    go (next l1) h = move l1 (poll_tables x l1) h (poll_tables-Always x l1)
    go overrun h = tt
    go fault h = tt
    go unfinished h = tt

measure-SameClient : (x : Inputs) (l : Loop) → SameClient l (measure x l).1
unfolding measure
measure-SameClient x l = ground arith

-- The client is not used any more than before, and no event is counted as sent.
pub record Lost (l l' : Loop) : Type 0 where
  pub settled : IsSettled l'
  pub idle : Idle l.link l'.link
  pub events : l'.total_events ≡ l.total_events

is_connected-spent : (l : Link) → IsSpent l → tcp_client_is_connected l ≡ (false, l)
unfolding tcp_client_is_connected
is_connected-spent (c, w) s = ground arith

hand_over-spent :
    (depth : ℕ) (link : Link) (json : List ℕ)
    → IsSpent link
    → Yields (λ h. (h.0 ≡ false) × Idle link h.1) (hand_over depth link json)
unfolding hand_over second_try attempt
hand_over-spent depth link json s =
    let down = is_connected-spent link s in
    let tried = attempt-spent depth link reconnect s in
    elim (Option-cases (tcp_client_reconnect depth link)) [
      | inl e ↦ absurd (ground arith)
      | inr (r, e) ↦
          let idle : Idle link r.1 = ground arith in
          let still = is_connected-spent r.1 idle.spent in
          ((false, r.1), rw (down, hand_over) (rw e (rw still refl)), (refl, idle))
    ]

-- A part keeps the client out of use.
abbrev IdleFrom : Loop → Loop → Type 0
IdleFrom l l' = Idle l.link l'.link × (l'.total_events ≡ l.total_events)

same_link : (link : Link) → IsSpent link → Idle link link
same_link link s = record { spent = s; connects = refl; sends = refl; wire = refl; open_fds = refl }

send_out-spent :
    (depth event_count : ℕ) (out : Output) (l : Loop)
    → IsSpent l.link
    → Always (IdleFrom l) (send_out depth event_count out l)
unfolding send_out
send_out-spent depth event_count out l s =
    let (h, e, (kept, idle)) = hand_over-spent depth l.link (take out.written out.bytes) s in
    elim (Bool-cases (ltb json_size out.extent)) [
      | inl over ↦ rw (over, send_out) tt
      | inr inside ↦ elim (Bool-cases (out.written == 0)) [
        | inl empty ↦ rw (inside, send_out) (rw empty (same_link l.link s, refl))
        | inr text ↦ rw (inside, send_out) (rw (text, e) (idle, rw kept refl))
      ]
    ]

deliver-spent :
    (depth : ℕ) (probe_id : List ℕ) (mp : Option (List ℕ)) (l : Loop)
    → IsSpent l.link
    → Always (IdleFrom l) (deliver depth probe_id mp l)
unfolding deliver
deliver-spent depth probe_id mp l s =
    let n = (flow_tracker_get_events l.probe.tracker (max_flows * 2)).0 in
    let evs = (flow_tracker_get_events l.probe.tracker (max_flows * 2)).1 in
    elim (Bool-cases (ltb 0 n || has_metric mp)) [
      | inl some_event ↦
          rw (some_event, deliver)
            (send_out-spent depth n (serialize_batch evs mp probe_id json_size) l s)
      | inr quiet ↦ rw (quiet, deliver) (same_link l.link s, refl)
    ]

round-spent :
    (fuel depth : ℕ) (probe_id : List ℕ) (x : Inputs) (l : Loop)
    → IsSpent l.link
    → Always (IdleFrom l) (round fuel depth probe_id x l)
unfolding round
round-spent fuel depth probe_id x l s =
    go (gather l.use_bpf fuel probe_id x l) (gather-Always l.use_bpf fuel probe_id x l)
  where
    via :
        (l2 : Loop) (m : Outcome Loop)
        → SameClient l l2
        → Always (IdleFrom l2) m
        → Always (IdleFrom l) m
    via l2 (next l') h k = ground arith
    via l2 overrun h k = tt
    via l2 fault h k = tt
    via l2 unfinished h k = tt

    go :
        (m : Outcome Loop)
        → Always (SameClient l) m
        → Always
            (IdleFrom l)
            (and_then m λ l1. let (mp, l2) = measure x l1 in deliver depth probe_id mp l2)
    go (next l1) h =
        let k = measure-SameClient x l1 in
        let same : SameClient l (measure x l1).1 = (k.0 ∙ h.0, k.1 ∙ h.1) in
        let spent : IsSpent (measure x l1).1.link = rw (same.0) s in
        via (measure x l1).1 (deliver depth probe_id (measure x l1).0 (measure x l1).1) same
          (deliver-spent depth probe_id (measure x l1).0 (measure x l1).1 spent)
    go overrun h = tt
    go fault h = tt
    go unfinished h = tt

-- Once the client has used its ten retries, and from a settled state: for any number of rounds, with
-- frames that fit the receive buffer and readable tables, either a batch is written behind the end
-- of `json_buf`, which ends the model's run, or all rounds are done, the loop has not connected and
-- has sent nothing, no event counts as sent, and yet every event that it has gathered is dropped, so
-- that none is pending after the last round.
pub run-Lost :
    (fuel depth : ℕ) (probe_id : List ℕ) (xs : List Inputs) (l : Loop)
    → All IsFeasible xs
    → IsSettled l
    → IsSpent l.link
    → Ends (Lost l) (run fuel depth probe_id xs l)
unfolding run
run-Lost fuel depth probe_id [] l h v s = record {
  settled = v;
  idle = same_link l.link s;
  events = refl;
}
run-Lost fuel depth probe_id (x ∷ xs) l (h, hs) v s =
    and_then-Ends (Lost l) (Lost l) (round fuel depth probe_id x l)
      (λ l'. run fuel depth probe_id xs l')
      (both (round fuel depth probe_id x l) (round-Ends fuel depth probe_id x l h v.ready)
        (round-spent fuel depth probe_id x l s))
      (λ l' k.
        chain l' (run fuel depth probe_id xs l') k
          (run-Lost fuel depth probe_id xs l' hs k.settled k.idle.spent))
  where
    both :
        (m : Outcome Loop) → Ends (λ l'. IsSettled l') m → Always (IdleFrom l) m → Ends (Lost l) m
    both (next l') e k = record { settled = e; idle = k.0; events = k.1 }
    both overrun e k = tt
    both fault e k = e
    both unfinished e k = e

    chain : (l1 : Loop) (m : Outcome Loop) → Lost l l1 → Ends (Lost l1) m → Ends (Lost l) m
    chain l1 (next l') k e = record {
      settled = e.settled;
      idle = record {
        spent = e.idle.spent;
        connects = e.idle.connects ∙ k.idle.connects;
        sends = e.idle.sends ∙ k.idle.sends;
        wire = e.idle.wire ∙ k.idle.wire;
        open_fds = e.idle.open_fds ∙ k.idle.open_fds;
      };
      events = e.events ∙ k.events;
    }
    chain l1 overrun k e = tt
    chain l1 fault k e = e
    chain l1 unfinished k e = e
