-- ===== src/Probe/Loop/Checks.antt =====
-- The main loop on concrete inputs.
use stb_e_bpf.Base.{
  strncpy, ltb, ltb→lt, map, add64, ◌<◌, decimal, digits_of, ℕ, ◌≡◌, refl, true, false, none, some,
  List, [], ◌∷◌, ◌++◌, arith, codes, replicate, length,
}
use stb_e_bpf.FlowTracker.{FlowTracker, zero_record}
use stb_e_bpf.FlowTracker.Invariant
use stb_e_bpf.FlowTracker.Invariant.{count_active, count_key}
use stb_e_bpf.FlowTracker.Retransmit.{fresh_acks}
use stb_e_bpf.Anomaly.{anomaly_detector_create}
use stb_e_bpf.ProcNet.{parse_proc_net_file, parse_lines}
use stb_e_bpf.BpfLoader.{blank}
use stb_e_bpf.TcpClient.{Link, accepted}
use stb_e_bpf.TcpClient.Descriptors
use stb_e_bpf.TcpClient.GivesUp.{IsSpent}
use stb_e_bpf.Probe.Loop.{Arrival, Inputs, Loop, next, deliver, read_tables, run}
use stb_e_bpf.Probe.Loop.Safety.{IsFeasible, IsSettled, Ends}
use stb_e_bpf.Probe.Loop.Delivery.{post, pending_text, deliver-Sent}
use stb_e_bpf.Serializer.{flow_json}
use stb_e_bpf.Serializer.Text.{array_text, items, more_items}
use stb_e_bpf.TcpClient.Send.{http_request, complete, send_loop}
use stb_e_bpf.TcpClient.Delivery.{end_of}
use stb_e_bpf.Flow.{zero_event, ip_to_str}
use stb_e_bpf.Probe.Loop.Spent.{Lost, run-Lost}

-- An IPv4 UDP frame from port 4096 to port 4097.
abbrev frame : List ℕ
frame =
    replicate 12 2
    ++ (0x08 ∷ 0x00 ∷ 0x45 ∷ 0 ∷ 0 ∷ 28 ∷ 0 ∷ 1 ∷ 0 ∷ 0 ∷ 64 ∷ 17 ∷ 0 ∷ 0 ∷ 10 ∷ 0 ∷ 0 ∷ 1 ∷ 10 ∷ 0
        ∷ 0 ∷ 2 ∷ 0x10 ∷ 0 ∷ 0x10 ∷ 1 ∷ 0 ∷ 8 ∷ 0 ∷ 0 ∷ [])

abbrev arrival : Arrival
arrival = record {
  stop = false;
  pkt_buf = frame;
  len = 42;
  clock = record { received = 10; updated = 11; claimed = 12; checked = 13; judged = 14 };
}

-- A round with one frame, in which /proc/net/tcp has only its heading and the other files are
-- missing, and in which a metric is due.
abbrev inputs : Inputs
inputs = record {
  perf_clock = λ i. record { updated = 0; claimed = 0 };
  arrivals = arrival ∷ [];
  unset = λ i. 0;
  old_version = 0;
  tables = record { tcp4 = some (codes "sl" ∷ []); udp4 = none; tcp6 = none; udp6 = none };
  poll_ts = 20;
  poll_clock = λ i. 20;
  now_ns = 30_000_000_000;
  metric = codes "{}";
  cleanup_ts = 30_000_000_001;
}

inputs-IsFeasible : IsFeasible inputs
unfolding read_tables parse_proc_net_file parse_lines
inputs-IsFeasible = record { fits = (omega arith, tt); readable = ([], refl) }

abbrev small_tracker : FlowTracker
small_tracker = record {
  records = zero_record ∷ [];
  max_flows = 1;
  events = [];
  max_events = 2;
  active_count = 0;
}

small_tracker-IsValid : Invariant.IsValid small_tracker
unfolding count_active count_key
small_tracker-IsValid = record {
  width = refl;
  counted = refl;
  sized = refl;
  bounded = omega arith;
  distinct = λ k. omega arith;
}

abbrev spent_link : Link
spent_link = (
  record {
    sock_fd = none;
    server_ip = codes "10.0.0.9";
    server_port = 9000;
    is_connected = false;
    reconnect_retries = 10;
    reconnect_delay_ms = 30_000;
    last_reconnect_time = 0;
    auto_reconnect = true;
    send_buffer = [];
    bytes_sent = 0;
    bytes_lost = 0;
    connect_count = 0;
    reconnect_count = 0;
  },
  record { open_fds = []; wire = []; connects = []; sends = []; clock = 5000 ∷ []; peeks = [] },
)

spent_link-IsValid : Descriptors.IsValid spent_link
spent_link-IsValid = record {
  owned = refl;
  live = refl;
  retries = omega arith;
  delay_min = omega arith;
  delay_max = omega arith;
  unbuffered = refl;
}

spent_link-IsSpent : IsSpent spent_link
spent_link-IsSpent = record { down = refl; spent = omega arith }

abbrev start : Loop
start = record {
  probe = record { tracker = small_tracker; acks = fresh_acks; anomaly = anomaly_detector_create };
  link = spent_link;
  status = blank;
  cpus = [];
  use_bpf = true;
  last_metric_ns = 0;
  total_events = 0;
  total_packets = 0;
}

start-IsSettled : IsSettled start
start-IsSettled = record {
  ready = record { tracker = small_tracker-IsValid; link = spent_link-IsValid; no_ring = refl };
  drained = refl;
}

run-Lost_example : Ends (Lost start) (run 1 0 (codes "stb-1") (inputs ∷ inputs ∷ []) start)
run-Lost_example =
    run-Lost 1 0 (codes "stb-1") (inputs ∷ inputs ∷ []) start
      (inputs-IsFeasible, (inputs-IsFeasible, tt)) start-IsSettled spent_link-IsSpent

-- A tracker with one event, and a client that is connected.
abbrev busy_tracker : FlowTracker
busy_tracker = record small_tracker { events = zero_event ∷ [] }

abbrev request : List ℕ
request =
    http_request (codes "10.0.0.9")
      (array_text (map (λ e. flow_json e (codes "stb-1")) (zero_event ∷ [])))

abbrev busy_link : Link
busy_link = (
  record (spent_link.0) {
    sock_fd = some 4;
    is_connected = true;
    reconnect_retries = 0;
    reconnect_delay_ms = 1000;
  },
  record {
    open_fds = 4 ∷ [];
    wire = [];
    connects = [];
    sends = accepted (length request) ∷ [];
    clock = [];
    peeks = [];
  },
)

busy_link-IsValid : Descriptors.IsValid busy_link
busy_link-IsValid = record {
  owned = refl;
  live = refl;
  retries = omega arith;
  delay_min = omega arith;
  delay_max = omega arith;
  unbuffered = refl;
}

abbrev busy : Loop
busy = record start {
  probe = record { tracker = busy_tracker; acks = fresh_acks; anomaly = anomaly_detector_create };
  link = busy_link;
}

request-small : length request < 65536
unfolding http_request flow_json items more_items codes decimal digits_of ip_to_str strncpy
request-small = let e : ltb (length request) 65536 ≡ true = refl in ltb→lt (length request) 65536 e

request_end : end_of busy_link (pending_text (codes "stb-1") busy) ≡ complete (length request)
unfolding send_loop http_request flow_json items more_items codes decimal digits_of ip_to_str
    strncpy
request_end = refl

deliver-Sent_example :
    (l' : Loop) × (deliver 0 (codes "stb-1") none busy ≡ next l')
    × (l'.probe.tracker.events ≡ [])
    × (l'.total_events ≡ add64 0 1)
    × (l'.link.0.bytes_sent ≡ add64 0 (length request))
    × (l'.link.0.is_connected ≡ true)
    × (l'.link.1.wire ≡ post (codes "10.0.0.9") (pending_text (codes "stb-1") busy))
deliver-Sent_example =
    deliver-Sent 0 (codes "stb-1") busy (length request) busy_link-IsValid refl refl (omega arith)
      (omega arith) request-small (omega arith, omega arith) request_end
