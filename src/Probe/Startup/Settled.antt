-- ===== src/Probe/Startup/Settled.antt =====
-- The program starts in a settled state, and so stays in one.
use stb_e_bpf.Base.{
  ℕ, ◌^◌, ◌<◌, ◌≡◌, refl, sym, ap, ◌∙◌, Bool, true, false, ◌&&◌, inl, inr, Bool-cases, Option-cases,
  Option, none, some, List, [], arith, leb, decimal, All,
}
use mathlib.Core.Path.{subst}
use stb_e_bpf.FlowTracker.{FlowTracker, flow_tracker_create}
use stb_e_bpf.FlowTracker.Invariant
use stb_e_bpf.FlowTracker.Runs.{create-IsValid}
use stb_e_bpf.BpfLoader.{InitReply, CpuReply, World, bpf_loader_init}
use stb_e_bpf.TcpClient.{TcpClient, tcp_client_init}
use stb_e_bpf.TcpClient.Descriptors.{IsValid, connect-IsValid}
use stb_e_bpf.TcpClient
use stb_e_bpf.TcpClient.Cleanup.{cleanup-closes}
use stb_e_bpf.RuntimeConfig.{Env, StbConfig, config_load_from_env}
use stb_e_bpf.RuntimeConfig.Port.{with_port, config-port}
use stb_e_bpf.Probe.Dns.{c_string}
use stb_e_bpf.Probe.Loop.{Inputs, Loop, Outcome, next, and_then, max_flows, run}
use stb_e_bpf.Probe.Loop.Safety.{IsFeasible, IsSettled, Ends, and_then-Ends, run-Ends}
use stb_e_bpf.Probe.Startup.{Answers, start, probe_main, shut_down}

init-no_ring :
    (reply : InitReply) (cpus : List CpuReply) (w : World)
    → (bpf_loader_init reply cpus w).1.0.perf_map_fd ≡ none
unfolding bpf_loader_init
init-no_ring reply cpus w = ground arith

abbrev Made : Option TcpClient → Type 0
Made none = Unit
Made (some c) =
    (c.sock_fd ≡ none)
    × (c.is_connected ≡ false)
    × (c.reconnect_retries ≡ 0)
    × (c.reconnect_delay_ms ≡ 1000)
    × (c.send_buffer ≡ [])

init-Made :
    (ip : List ℕ) (port : ℕ) (auto allocated : Bool) → Made (tcp_client_init ip port auto allocated)
unfolding tcp_client_init
init-Made ip port auto allocated = ground arith

abbrev Created : Option FlowTracker → Type 0
Created none = Unit
Created (some ft) = Invariant.IsValid ft × (ft.events ≡ [])

create-Created : (allocated : Bool) (n : ℕ) → Created (flow_tracker_create allocated n)
unfolding flow_tracker_create
create-Created true n = ((create-IsValid n).1, refl)
create-Created false n = tt

abbrev pub Begins : Option Loop → Type 0
Begins none = Unit
Begins (some l) = IsSettled l

start-Begins : (cfg : StbConfig) (a : Answers) → a.relay.open_fds ≡ [] → Begins (start cfg a)
unfolding start
start-Begins cfg a clean =
    let made = create-Created a.tracker_allocated max_flows in
    let client = init-Made (c_string cfg.server_ip) cfg.server_port true a.client_allocated in
    let quiet = init-no_ring a.init a.cpus a.loader in
    elim (Option-cases (flow_tracker_create a.tracker_allocated max_flows)) [
      | inl e ↦ rw (e, start) tt
      | inr (ft, e) ↦
          elim (Option-cases
            (tcp_client_init (c_string cfg.server_ip) cfg.server_port true a.client_allocated)) [
              | inl f ↦ rw (e, start) (rw f tt)
              | inr (c, f) ↦
                  let valid : Created (some ft) = subst Created e made in
                  let new : Made (some c) = subst Made f client in
                  let v : IsValid (c, a.relay) = ground arith in
                  let (v', success, retries, fds) = connect-IsValid (c, a.relay) v (new.0, new.1) in
                  elim (Bool-cases a.detector_allocated) [
                    | inr no_room ↦ rw (e, start) (rw f (rw no_room tt))
                    | inl room ↦
                        rw (e, start)
                          (rw f (
                            rw room (record {
                              ready = record { tracker = valid.0; link = v'; no_ring = quiet };
                              drained = valid.1;
                            })))
                  ]
            ]
    ]

-- Behind the loop, the client is cleaned up and leaves no socket open.
shut_down-closes :
    (depth : ℕ) (l : Loop)
    → IsSettled l
    → (w : TcpClient.World) × (shut_down depth l ≡ some w) × (w.open_fds ≡ [])
unfolding shut_down
shut_down-closes depth l v = cleanup-closes depth l.link v.ready.link

-- An exit before the loop, or a settled state of it from which the client is cleaned up.
abbrev pub Leaves : Option Loop → Type 0
Leaves none = Unit
Leaves (some l) =
    IsSettled l
    × ((depth : ℕ) → (w : TcpClient.World) × (shut_down depth l ≡ some w) × (w.open_fds ≡ []))

-- The program ends before its loop, or in a state of it that is settled.
abbrev pub MainEnds : Outcome (Option Loop) → Type 0
MainEnds m = Ends (λ r. Leaves r) m

-- For any settings and any answers of the system, from a process without a socket, and over any
-- rounds whose frames fit the receive buffer and whose tables are readable: the program exits
-- before its loop, or each round comes to its end with a valid tracker, a valid client and nothing
-- pending, and cleaning up the client then leaves no socket open, or a batch is written behind
-- `json_buf`; there is no other access outside a buffer, and no ring buffer is waited for.
pub probe_main-MainEnds :
    (fuel depth : ℕ) (cfg : StbConfig) (a : Answers) (xs : List Inputs)
    → a.relay.open_fds ≡ []
    → All IsFeasible xs
    → MainEnds (probe_main fuel depth cfg a xs)
unfolding probe_main
probe_main-MainEnds fuel depth cfg a xs clean h = go (start cfg a) (start-Begins cfg a clean)
  where
    go :
        (m : Option Loop)
        → Begins m
        → MainEnds (elim m [
          | none ↦ next none
          | some l ↦ and_then (run fuel depth (c_string cfg.probe_id) xs l) (λ l'. next (some l'))
        ])
    go none v = tt
    go (some l) v =
        and_then-Ends (λ l'. IsSettled l') (λ r. Leaves r)
          (run fuel depth (c_string cfg.probe_id) xs l) (λ l'. next (some l'))
          (run-Ends fuel depth (c_string cfg.probe_id) xs l h v)
          (λ l' v'. (v', λ d. shut_down-closes d l' v'))

abbrev pub is_some : {A : Type 0} → Option A → Bool
is_some none = false
is_some (some a) = true

client-is_some :
    (ip : List ℕ) (port : ℕ) (allocated : Bool)
    → allocated ≡ true
    → is_some (tcp_client_init ip port true allocated) ≡ (leb 1 port && leb port 65535)
unfolding tcp_client_init
client-is_some ip port allocated e = ground arith

tracker-is_some :
    (allocated : Bool) (n : ℕ) → allocated ≡ true → is_some (flow_tracker_create allocated n) ≡ true
unfolding flow_tracker_create
tracker-is_some allocated n e = ground arith

start-is_some :
    (cfg : StbConfig) (a : Answers)
    → a.tracker_allocated ≡ true
    → a.client_allocated ≡ true
    → a.detector_allocated ≡ true
    → is_some (start cfg a) ≡ (leb 1 cfg.server_port && leb cfg.server_port 65535)
unfolding start
start-is_some cfg a t c d =
    let made = tracker-is_some a.tracker_allocated max_flows t in
    let client = client-is_some (c_string cfg.server_ip) cfg.server_port a.client_allocated c in
    elim (Option-cases (flow_tracker_create a.tracker_allocated max_flows)) [
      | inl e ↦ absurd (ground arith)
      | inr (ft, e) ↦
          elim (Option-cases
            (tcp_client_init (c_string cfg.server_ip) cfg.server_port true a.client_allocated)) [
              | inl f ↦ rw (e, start) (rw f (ap is_some (sym f) ∙ client))
              | inr (k, f) ↦ rw (e, start) (rw f (ground arith))
            ]
    ]

-- If the three allocations succeed and STB_RELAY_PORT is set to a decimal number below 2^31, then
-- the program gets to its loop exactly if that number is from 1 to 65535, whatever else is set.
pub start-port :
    (env : Env) (n ip_last id_last : ℕ) (a : Answers)
    → n < 2 ^ 31
    → a.tracker_allocated ≡ true
    → a.client_allocated ≡ true
    → a.detector_allocated ≡ true
    → is_some (start (config_load_from_env (with_port env (decimal n)) ip_last id_last) a)
      ≡ (leb 1 n && leb n 65535)
start-port env n ip_last id_last a small t c d =
    let cfg = config_load_from_env (with_port env (decimal n)) ip_last id_last in
    let port = config-port env n ip_last id_last small in
    start-is_some cfg a t c d ∙ ap (λ (k : ℕ). leb 1 k && leb k 65535) port
