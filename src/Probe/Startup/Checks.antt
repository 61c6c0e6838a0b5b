-- ===== src/Probe/Startup/Checks.antt =====
-- The start of the program on concrete answers.
use stb_e_bpf.Base.{◌≡◌, refl, true, none, some, [], ◌∷◌, ◌&&◌, leb, arith, codes, decimal}
use stb_e_bpf.ProcNet.{parse_proc_net_file, parse_lines}
use stb_e_bpf.RuntimeConfig.{Env, config_load_from_env}
use stb_e_bpf.RuntimeConfig.Port.{with_port}
use stb_e_bpf.Probe.Loop.{Inputs, read_tables}
use stb_e_bpf.Probe.Loop.Safety.{IsFeasible}
use stb_e_bpf.Probe.Startup.{
  Answers, watch, help, text_eq, after_i, after_option, parse_args, request_of, start, probe_main,
}
use stb_e_bpf.Probe.Startup.Settled.{MainEnds, is_some, probe_main-MainEnds, start-port}

abbrev unset : Env
unset = record { relay_ip = none; relay_port = none; probe_id = none; log_level = none }

-- The relay refuses, and the program and its socket are made.
abbrev answers : Answers
answers = record {
  tracker_allocated = true;
  client_allocated = true;
  detector_allocated = true;
  relay = record { open_fds = []; wire = []; connects = []; sends = []; clock = []; peeks = [] };
  init = record { prog = some 5; socket = some 6; ifindex = true; bind = true; attach = true };
  cpus = [];
  loader = record { open_fds = []; maps = [] };
}

abbrev quiet : Inputs
quiet = record {
  perf_clock = λ i. record { updated = 0; claimed = 0 };
  arrivals = [];
  unset = λ i. 0;
  old_version = 0;
  tables = record { tcp4 = none; udp4 = none; tcp6 = none; udp6 = none };
  poll_ts = 20;
  poll_clock = λ i. 20;
  now_ns = 30_000_000_000;
  metric = codes "{}";
  cleanup_ts = 30_000_000_001;
}

quiet-IsFeasible : IsFeasible quiet
unfolding read_tables parse_proc_net_file parse_lines
quiet-IsFeasible = record { fits = tt; readable = ([], refl) }

probe_main-MainEnds_example :
    MainEnds (probe_main 1 0 (config_load_from_env unset 7 7) answers (quiet ∷ quiet ∷ []))
probe_main-MainEnds_example =
    probe_main-MainEnds 1 0 (config_load_from_env unset 7 7) answers (quiet ∷ quiet ∷ []) refl
      (quiet-IsFeasible, (quiet-IsFeasible, tt))

start-port_example :
    is_some (start (config_load_from_env (with_port unset (decimal 9000)) 7 7) answers)
    ≡ (leb 1 9000 && leb 9000 65535)
start-port_example = start-port unset 9000 7 7 answers (omega arith) refl refl refl

-- The name that -i takes is looked at as an option: with "-i -b x" it is the interface, and x the
-- object file.
interface_test :
    request_of (codes "-i" ∷ codes "-b" ∷ codes "x" ∷ []) none ≡ watch (codes "-b") (codes "x")
unfolding request_of parse_args after_option after_i text_eq codes
interface_test = refl

help_test : request_of (codes "-i" ∷ codes "lo" ∷ codes "--help" ∷ []) (some (codes "eth1")) ≡ help
unfolding request_of parse_args after_option after_i text_eq codes
help_test = refl
