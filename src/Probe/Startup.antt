-- ===== src/Probe/Startup.antt =====
-- `main` of src/main.c up to its loop: the arguments, the modules in the order in which they are
-- made, and the way into the loop.
pub mod Settled
mod Checks
use stb_e_bpf.Base.{
  ℕ, Bool, true, false, not, ◌&&◌, ◌||◌, Option, none, some, List, [], ◌∷◌, ◌==◌, if◌then◌else◌,
  ◌>>=◌, codes,
}
use stb_e_bpf.FlowTracker.{FlowTracker, flow_tracker_create}
use stb_e_bpf.FlowTracker.Retransmit.{fresh_acks}
use stb_e_bpf.Anomaly.{anomaly_detector_create}
use stb_e_bpf.BpfLoader.{Status, InitReply, CpuReply, bpf_loader_init}
use stb_e_bpf.BpfLoader
use stb_e_bpf.TcpClient.{TcpClient, Link, tcp_client_init, tcp_client_connect}
use stb_e_bpf.TcpClient
use stb_e_bpf.TcpClient.Send.{tcp_client_cleanup}
use stb_e_bpf.RuntimeConfig.{StbConfig}
use stb_e_bpf.Probe.Dns.{c_string}
use stb_e_bpf.Probe.Loop.{Inputs, Loop, Outcome, next, and_then, max_flows, run}

-- `strcmp(a, b) == 0`.
unfoldable pub text_eq : List ℕ → List ℕ → Bool
text_eq [] [] = true
text_eq [] (y ∷ b) = false
text_eq (x ∷ a) [] = false
text_eq (x ∷ a) (y ∷ b) = x == y && text_eq a b

-- What the arguments ask for: a text and the end, or a run on an interface with an object file.
pub data Request : Type 0 where
  help version : Request
  watch : (ifname bpf_path : List ℕ) → Request

-- What the next argument is for.
pub data Want : Type 0 where
  option ifname bpf_path : Want

abbrev pub is_last : List (List ℕ) → Bool
is_last [] = true
is_last (a ∷ rest) = false

-- An argument of -b is wanted, if there is one.
unfoldable pub after_i : List ℕ → List (List ℕ) → Want
after_i a rest = if text_eq a (codes "-b") && not (is_last rest) then bpf_path else option

unfoldable pub after_option : List ℕ → List (List ℕ) → Want
after_option a rest =
    if text_eq a (codes "-i") && not (is_last rest) then ifname else after_i a rest

-- The loop over `argv`. The test for -b comes after `++i` of -i, so that it sees the name of the
-- interface.
unfoldable pub parse_args : Want → List (List ℕ) → List ℕ → List ℕ → Request
parse_args want [] i b = watch i b
parse_args option (a ∷ rest) i b =
    if text_eq a (codes "-h") || text_eq a (codes "--help")
    then help
    else if text_eq a (codes "-v")
    then version
    else parse_args (after_option a rest) rest i b
parse_args ifname (a ∷ rest) i b = parse_args (after_i a rest) rest a b
parse_args bpf_path (a ∷ rest) i b = parse_args option rest i a

-- The arguments behind the program's name, and `STB_IFACE`, which comes before them.
unfoldable pub request_of : List (List ℕ) → Option (List ℕ) → Request
request_of args iface =
    elim (parse_args option args (codes "eth0") (codes "./bpf/stb_socket_filter.bpf.o")) [
      | help ↦ help
      | version ↦ version
      | watch i b ↦ elim iface [
        | none ↦ watch i b
        | some name ↦ elim name [ [] ↦ watch i b | c ∷ s ↦ watch (c ∷ s) b ]
      ]
    ]

-- What the system answers while the modules are made.
pub record Answers : Type 0 where
  pub tracker_allocated : Bool
  pub client_allocated : Bool
  pub detector_allocated : Bool
  pub relay : TcpClient.World
  pub init : InitReply
  pub cpus : List CpuReply
  pub loader : BpfLoader.World

-- The state in which the loop begins; `none` is an exit with status 1.
unfoldable pub start : StbConfig → Answers → Option Loop
start cfg a = do
  tracker ← flow_tracker_create a.tracker_allocated max_flows
  client ← tcp_client_init (c_string cfg.server_ip) cfg.server_port true a.client_allocated
  let (success, link) = tcp_client_connect (client, a.relay)
  let (loaded, (status, w)) = bpf_loader_init a.init a.cpus a.loader
  if a.detector_allocated
      then some (record {
        probe = record { tracker = tracker; acks = fresh_acks; anomaly = anomaly_detector_create };
        link = link;
        status = status;
        cpus = [];
        use_bpf = loaded;
        last_metric_ns = 0;
        total_events = 0;
        total_packets = 0;
      })
      else none

-- The program from its settings on, over the rounds until it is stopped; `none` is an exit before
-- the loop.
unfoldable pub probe_main : ℕ → ℕ → StbConfig → Answers → List Inputs → Outcome (Option Loop)
probe_main fuel depth cfg a xs = elim (start cfg a) [
  | none ↦ next none
  | some l ↦ and_then (run fuel depth (c_string cfg.probe_id) xs l) (λ l'. next (some l'))
]

-- What the client leaves of the system behind the loop: `tcp_client_cleanup`.
unfoldable pub shut_down : ℕ → Loop → Option TcpClient.World
shut_down depth l = tcp_client_cleanup depth l.link
