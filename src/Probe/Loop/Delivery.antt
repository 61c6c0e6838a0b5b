-- ===== src/Probe/Loop/Delivery.antt =====
-- What a round sends while its client is connected.
use stb_e_bpf.Base.{
  ℕ, ◌≤◌, ◌<◌, ◌≡◌, refl, ap, ◌∙◌, true, false, inl, inr, Bool-cases, Option, none, some, List, [],
  map, arith, ltb, ◌==◌, length, take, take-all, add64, codes, ◌++◌, decimal,
}
use mathlib.Core.Path.{subst}
use stb_e_bpf.FlowTracker.{FlowTracker, flow_tracker_get_events, flow_tracker_flush}
use stb_e_bpf.Serializer.{Output, serialize_batch, flow_json}
use stb_e_bpf.Serializer.Text.{array_text, serialize_batch-array}
use stb_e_bpf.TcpClient.{Link}
use stb_e_bpf.TcpClient.Send.{
  http_request, complete, flush_at, tcp_client_is_connected, tcp_client_send,
}
use stb_e_bpf.TcpClient.Descriptors.{IsValid}
use stb_e_bpf.TcpClient.Wire.{send-wire}
use stb_e_bpf.TcpClient.Delivery.{Honest, Delivered, end_of, send-Delivered, length-http_request}
use stb_e_bpf.Probe.Loop.{
  Loop, next, set_tracker, json_size, second_try, hand_over, send_out, deliver,
}

is_connected_up :
    (l : Link)
    → IsValid l
    → l.0.is_connected ≡ true
    → l.1.peeks ≡ []
    → tcp_client_is_connected l ≡ (true, l)
unfolding tcp_client_is_connected
is_connected_up (c, w) v up quiet = ground arith

hand_over_up :
    (depth : ℕ) (link : Link) (json : List ℕ) (r : Option ℕ × Link)
    → IsValid link
    → link.0.is_connected ≡ true
    → link.1.peeks ≡ []
    → tcp_client_send depth link json ≡ some r
    → hand_over depth link json ≡ some (true, r.1)
unfolding hand_over second_try
hand_over_up depth link json r v up quiet sent =
    let ask = is_connected_up link v up quiet in
    rw (ask, second_try) (rw (ask, hand_over) (rw sent refl))

send_out_up :
    (depth n : ℕ) (out : Output) (l : Loop) (link : Link)
    → out.extent ≤ json_size
    → 0 < out.written
    → hand_over depth l.link (take out.written out.bytes) ≡ some (true, link)
    → send_out depth n out l
      ≡ next (record (set_tracker (flow_tracker_flush l.probe.tracker) l) {
        link = link;
        total_events = add64 l.total_events n;
      })
unfolding send_out
send_out_up depth n out l link inside some_text e =
    let a : ltb json_size out.extent ≡ false = ground arith in
    let b : (out.written == 0) ≡ false = ground arith in rw (a, send_out) (rw b (rw e refl))

-- The text of the pending events.
abbrev pub pending_text : List ℕ → Loop → List ℕ
pending_text probe_id l = array_text (map (λ e. flow_json e probe_id) l.probe.tracker.events)

get_events-all :
    (ft : FlowTracker)
    → length ft.events ≤ 8192
    → flow_tracker_get_events ft 8192 ≡ (length ft.events, ft.events)
unfolding flow_tracker_get_events
get_events-all ft few = elim (Bool-cases (ltb (length ft.events) 8192)) [
  | inl less ↦
      rw (less, flow_tracker_get_events)
        (rw (take-all (length ft.events) ft.events (omega arith)) refl)
  | inr full ↦
      let e : 8192 ≡ length ft.events = ground arith in
      rw (full, flow_tracker_get_events)
        (rw (take-all 8192 ft.events few) (ap (λ (n : ℕ). (n, ft.events)) e))
]

deliver_pending :
    (depth : ℕ) (probe_id : List ℕ) (l : Loop)
    → 0 < length l.probe.tracker.events
    → length l.probe.tracker.events ≤ 8192
    → deliver depth probe_id none l
      ≡ send_out depth
          (length l.probe.tracker.events)
          (serialize_batch l.probe.tracker.events none probe_id json_size)
          l
unfolding deliver
deliver_pending depth probe_id l some_event few =
    let all = get_events-all l.probe.tracker few in
    let go : ltb 0 (length l.probe.tracker.events) ≡ true = ground arith in
    rw (all, deliver) (rw go refl)

-- A POST request (RFC 9112) with its body: the address of the server, the length of the body, an
-- empty line, the body.
abbrev pub post : List ℕ → List ℕ → List ℕ
post server_ip body =
    codes "POST /api/v1/ingest HTTP/1.1\r\nHost: "
    ++ (server_ip
        ++ (codes "\r\nContent-Type: application/json\r\nContent-Length: "
            ++ (decimal (length body) ++ (codes "\r\nConnection: keep-alive\r\n\r\n" ++ body))))

http_request-post : (server_ip body : List ℕ) → http_request server_ip body ≡ post server_ip body
unfolding http_request
http_request-post server_ip body = refl

-- A round without a metric, with 1 to 8192 pending events, a valid client that is connected and
-- finds itself so, a request of less than 65536 bytes, and a system that takes all of it: the round
-- goes on; the bytes that `send` has taken are a POST request whose body is the array of the events'
-- texts in their order; the length of the request is added to bytes_sent and the number of events to
-- total_events, nothing is pending, and the client stays connected.
pub deliver-Sent :
    (depth : ℕ) (probe_id : List ℕ) (l : Loop) (t : ℕ)
    → IsValid l.link
    → l.link.0.is_connected ≡ true
    → l.link.1.peeks ≡ []
    → 0 < length l.probe.tracker.events
    → length l.probe.tracker.events ≤ 8192
    → length (http_request l.link.0.server_ip (pending_text probe_id l)) < 65536
    → Honest (length (http_request l.link.0.server_ip (pending_text probe_id l))) 0 l.link.1.sends
    → end_of l.link (pending_text probe_id l) ≡ complete t
    → (l' : Loop) × (deliver depth probe_id none l ≡ next l')
      × (l'.probe.tracker.events ≡ [])
      × (l'.total_events ≡ add64 l.total_events (length l.probe.tracker.events))
      × (l'.link.0.bytes_sent
          ≡ add64 l.link.0.bytes_sent
              (length (http_request l.link.0.server_ip (pending_text probe_id l))))
      × (l'.link.0.is_connected ≡ true)
      × (l'.link.1.wire ≡ l.link.1.wire ++ post l.link.0.server_ip (pending_text probe_id l))
deliver-Sent depth probe_id l t v up quiet some_event few small honest ends =
    let evs = l.probe.tracker.events in
    let text = pending_text probe_id l in
    let short = length-http_request l.link.0.server_ip text in
    let (bytes, written, inside) =
      serialize_batch-array evs probe_id json_size (omega (arith, short)) in
    let out = serialize_batch evs none probe_id json_size in
    let long : 0 < length text = omega arith in
    let (r, e, (valid, d)) = send-Delivered (flush_at depth) l.link text v up long small honest in
    let wired = send-wire (flush_at depth) l.link text t r up long small honest ends e in
    let full : take out.written out.bytes ≡ text =
      take-all out.written out.bytes (omega arith) ∙ bytes in
    let d' : Delivered l.link (length (http_request l.link.0.server_ip text)) (complete t) r =
      subst (λ end. Delivered l.link (length (http_request l.link.0.server_ip text)) end r) ends
        d in
    let handed =
      ap (hand_over depth l.link) full
      ∙ hand_over_up depth l.link text r v up quiet (unfold tcp_client_send in e) in
    let some_text : 0 < out.written = omega (arith, ap length bytes) in
    (
      record (set_tracker (flow_tracker_flush l.probe.tracker) l) {
        link = r.1;
        total_events = add64 l.total_events (length evs);
      },
      deliver_pending depth probe_id l some_event few
          ∙ send_out_up depth (length evs) out l r.1 inside some_text handed,
      unfold flow_tracker_flush in refl,
      refl,
      ground arith,
      ground arith,
      wired ∙ ap (λ bs. l.link.1.wire ++ bs) (http_request-post l.link.0.server_ip text),
    )
