-- ===== src/Probe/Loop.antt =====
-- The main loop of src/main.c: one round over the sources, the tracker, the serializer and the
-- client, and a run of rounds. Signals, the clock, the network and the files under /proc enter a
-- round as its inputs. The loop over the frames and the loop over the rounds end with the inputs.
pub mod Client
pub mod Safety
pub mod Spent
pub mod Delivery
mod Checks
use stb_e_bpf.Base.{
  ℕ, zero, suc, ◌+◌, ◌-◌, ◌*◌, ◌≡◌, Bool, true, false, not, ◌&&◌, ◌||◌, Option, none, some, List,
  [], ◌∷◌, ◌++◌, ltb, leb, ◌==◌, if◌then◌else◌, ◌>>=◌, length, take, add64, sub64,
}
use stb_e_bpf.Flow.{FlowEvent, ProcNetEntry}
use stb_e_bpf.PacketParser.{packet_parse_raw}
use stb_e_bpf.FlowTracker.{
  FlowTracker, flow_tracker_update, flow_tracker_get_events, flow_tracker_flush,
  flow_tracker_cleanup,
}
use stb_e_bpf.ProcNet.{parse_proc_net_file}
use stb_e_bpf.BpfLoader.{Slot, Status}
use stb_e_bpf.BpfLoader.Perf.{Ring, done, outside, running}
use stb_e_bpf.Serializer.{Output, serialize_batch}
use stb_e_bpf.TcpClient.{Link}
use stb_e_bpf.TcpClient.Send.{tcp_client_is_connected, tcp_client_reconnect, tcp_client_send}
use stb_e_bpf.Probe.Capture.{Probe, Clock, fresh_pkt, capture_packet}
use stb_e_bpf.Probe.Sources.{Ticks, Polled, read_bpf_events}

-- `MAX_FLOWS`, and the size of `json_buf`.
abbrev pub max_flows : ℕ
max_flows = 4096

abbrev pub json_size : ℕ
json_size = 8192 * 16

-- A frame that `recvfrom` hands over; `stop` is `g_stop` as the test before the call finds it, and
-- a length of zero is a call that fails.
pub record Arrival : Type 0 where
  pub stop : Bool
  pub pkt_buf : List ℕ
  pub len : ℕ
  pub clock : Clock

-- The files under /proc/net as they are at their turn; `none` cannot be opened.
pub record Tables : Type 0 where
  pub tcp4 : Option (List (List ℕ))
  pub udp4 : Option (List (List ℕ))
  pub tcp6 : Option (List (List ℕ))
  pub udp6 : Option (List (List ℕ))

-- What one round finds. `unset` and `old_version` are what memory holds that the reader of
-- /proc/net does not assign.
pub record Inputs : Type 0 where
  pub perf_clock : ℕ → Ticks
  pub arrivals : List Arrival
  pub unset : ℕ → ℕ
  pub old_version : ℕ
  pub tables : Tables
  pub poll_ts : ℕ
  pub poll_clock : ℕ → ℕ
  pub now_ns : ℕ
  pub metric : List ℕ
  pub cleanup_ts : ℕ

-- The variables of `main` that outlive a round.
pub record Loop : Type 0 where
  pub probe : Probe
  pub link : Link
  pub status : Status
  pub cpus : List (Slot × Ring)
  pub use_bpf : Bool
  pub last_metric_ns : ℕ
  pub total_events : ℕ
  pub total_packets : ℕ

-- How a part of a round ends: with a value, with a write behind `json_buf`, with any other access
-- outside a buffer or undefined behaviour, or not within the fuel of the ring buffers.
pub data Outcome (A : Type 0) : Type 0 where
  next : A → Outcome A
  overrun : Outcome A
  fault : Outcome A
  unfinished : Outcome A

abbrev pub and_then : {A B : Type 0} → Outcome A → (A → Outcome B) → Outcome B
and_then (next a) f = f a
and_then overrun f = overrun
and_then fault f = fault
and_then unfinished f = unfinished

abbrev pub or_fault : {A : Type 0} → Option A → Outcome A
or_fault none = fault
or_fault (some a) = next a

-- Whether the parser takes the frame, which is when a packet is counted.
unfoldable pub is_taken : Arrival → Bool
is_taken a = elim (packet_parse_raw a.pkt_buf a.len (fresh_pkt a.len a.clock.received)) [
  | none ↦ false
  | some (ret, pkt) ↦ not (ret == 0)
]

-- `while (!g_stop && pkt_this_round < 1000)`, with the number of packets that it takes.
unfoldable pub capture_loop : List ℕ → List Arrival → ℕ → ℕ → Probe → Option (ℕ × Probe)
capture_loop probe_id [] this_round taken p = some (taken, p)
capture_loop probe_id (a ∷ as') this_round taken p =
    let one = if is_taken a then 1 else 0 in
    if a.stop || leb 1000 this_round || a.len == 0
    then some (taken, p)
    else (capture_packet probe_id a.pkt_buf a.len a.clock p >>= λ p'.
        capture_loop probe_id as' (this_round + one) (taken + one) p')

abbrev pub quarter : ℕ
quarter = 1024

-- The four calls of the readers. Each writes behind the entries of those before it.
unfoldable pub read_tables : Inputs → Option (List ProcNetEntry)
read_tables x = do
  tcp4 ← parse_proc_net_file x.unset x.old_version true quarter x.tables.tcp4
  udp4 ← parse_proc_net_file x.unset x.old_version false (quarter - length tcp4) x.tables.udp4
  tcp6 ← parse_proc_net_file x.unset x.old_version true quarter x.tables.tcp6
  udp6 ← parse_proc_net_file x.unset x.old_version false (quarter - length tcp6) x.tables.udp6
  some (take max_flows (tcp4 ++ (udp4 ++ (tcp6 ++ udp6))))

abbrev pub set_tracker : FlowTracker → Loop → Loop
set_tracker ft l = record l { probe = record (l.probe) { tracker = ft } }

-- The poll of /proc/net, which both modes make.
unfoldable pub poll_tables : Inputs → Loop → Outcome Loop
poll_tables x l = and_then (or_fault (read_tables x)) λ entries.
    next (set_tracker (flow_tracker_update l.probe.tracker entries x.poll_ts x.poll_clock) l)

-- What only the mode with BPF does before the poll: the ring buffers and the raw socket.
unfoldable pub capture_part : ℕ → List ℕ → Inputs → Loop → Outcome Loop
capture_part fuel probe_id x l =
    elim (read_bpf_events fuel probe_id x.perf_clock l.status l.cpus l.probe.tracker) [
      | outside ↦ fault
      | running ↦ unfinished
      | done polled ↦
          and_then
            (or_fault (
              capture_loop probe_id x.arrivals polled.count 0
                (record (l.probe) { tracker = polled.tracker })))
            λ c. next (record l {
              probe = c.1;
              cpus = polled.cpus;
              total_packets = add64 l.total_packets (polled.count + c.0);
            })
    ]

-- The sources of a round, by the mode.
unfoldable pub gather : Bool → ℕ → List ℕ → Inputs → Loop → Outcome Loop
gather true fuel probe_id x l = and_then (capture_part fuel probe_id x l) (λ l'. poll_tables x l')
gather false fuel probe_id x l = poll_tables x l

abbrev pub metric_period : ℕ
metric_period = 30_000_000_000

abbrev pub max_age : ℕ
max_age = 60 * 1_000_000_000

-- `now_ns - last_metric_ns >= 30000000000ULL`.
abbrev pub is_due : Inputs → Loop → Bool
is_due x l = leb metric_period (sub64 x.now_ns l.last_metric_ns)

-- The metric, with the cleanup that goes with it.
unfoldable pub measure : Inputs → Loop → Option (List ℕ) × Loop
measure x l =
    if is_due x l
    then (
      some x.metric,
      record (set_tracker (flow_tracker_cleanup l.probe.tracker max_age x.cleanup_ts) l) {
        last_metric_ns = x.now_ns;
      },
    )
    else (none, l)

-- `if (!tcp_client_is_connected(tcp)) tcp_client_reconnect(tcp)`; `none` is a call that does not
-- return.
unfoldable pub second_try : ℕ → Link → Option Link
second_try depth link =
    let (up, l1) = tcp_client_is_connected link in
    if up then some l1 else (tcp_client_reconnect depth l1 >>= λ r. some r.1)

-- The use of the client: whether the text has been handed to a connected client, and the client.
unfoldable pub hand_over : ℕ → Link → List ℕ → Option (Bool × Link)
hand_over depth link json = do
  l2 ← second_try depth link
  let (ready, l3) = tcp_client_is_connected l2
  if ready then (tcp_client_send depth l3 json >>= λ r. some (true, r.1)) else some (false, l3)

-- What is sent of a batch that has been written.
unfoldable pub send_out : ℕ → ℕ → Output → Loop → Outcome Loop
send_out depth event_count out l =
    let emptied = set_tracker (flow_tracker_flush l.probe.tracker) l in
    if ltb json_size out.extent
    then overrun
    else if out.written == 0
    then next emptied
    else and_then (or_fault (hand_over depth l.link (take out.written out.bytes))) λ h.
      next (record emptied {
        link = h.1;
        total_events = if h.0 then add64 l.total_events event_count else l.total_events;
      })

abbrev pub has_metric : Option (List ℕ) → Bool
has_metric none = false
has_metric (some m) = true

-- "Serialize and send".
unfoldable pub deliver : ℕ → List ℕ → Option (List ℕ) → Loop → Outcome Loop
deliver depth probe_id mp l =
    let (event_count, events) = flow_tracker_get_events l.probe.tracker (max_flows * 2) in
    if ltb 0 event_count || has_metric mp
    then send_out depth event_count (serialize_batch events mp probe_id json_size) l
    else next l

-- One round.
unfoldable pub round : ℕ → ℕ → List ℕ → Inputs → Loop → Outcome Loop
round fuel depth probe_id x l =
    and_then (gather l.use_bpf fuel probe_id x l)
      λ l1. let (mp, l2) = measure x l1 in deliver depth probe_id mp l2

-- The rounds until `g_stop` is found set.
unfoldable pub run : ℕ → ℕ → List ℕ → List Inputs → Loop → Outcome Loop
run fuel depth probe_id [] l = next l
run fuel depth probe_id (x ∷ xs) l =
    and_then (round fuel depth probe_id x l) (λ l'. run fuel depth probe_id xs l')
