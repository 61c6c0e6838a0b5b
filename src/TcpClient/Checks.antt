-- ===== src/TcpClient/Checks.antt =====
-- The client on concrete answers of the system.
use stb_e_bpf.Base.{ℕ, refl, true, false, none, some, List, [], ◌∷◌, arith, replicate, codes}
use stb_e_bpf.TcpClient.{
  TcpClient, ConnectReply, World, reconnect_over, in_progress, accepted, ready, interrupted, again,
}
use stb_e_bpf.TcpClient.Send.{flush_at}
use stb_e_bpf.TcpClient.Descriptors.{IsValid, Reconnected, Yields, reconnect_over-Reconnected}
use stb_e_bpf.TcpClient.GivesUp.{IsSpent}

-- A client as `tcp_client_init` makes it.
abbrev idle_client : TcpClient
idle_client = record {
  sock_fd = none;
  server_ip = codes "10.0.0.9";
  server_port = 9000;
  is_connected = false;
  reconnect_retries = 0;
  reconnect_delay_ms = 1000;
  last_reconnect_time = 0;
  auto_reconnect = true;
  send_buffer = [];
  bytes_sent = 0;
  bytes_lost = 0;
  connect_count = 0;
  reconnect_count = 0;
}

abbrev busy_client : TcpClient
busy_client = record idle_client { sock_fd = some 4; is_connected = true }

abbrev spent_client : TcpClient
spent_client = record idle_client { reconnect_retries = 10; reconnect_delay_ms = 30_000 }

-- A connection that `select` reports and `getsockopt` confirms.
abbrev good : ConnectReply
good = record {
  socket = some 5;
  nonblocking = true;
  address = true;
  connect = in_progress;
  select = ready;
  getsockopt = true;
  so_error = 0;
}

abbrev offline : World
offline = record {
  open_fds = [];
  wire = [];
  connects = good ∷ [];
  sends = [];
  clock = 5000 ∷ 9000 ∷ [];
  peeks = [];
}

-- Three bytes, an interruption, then no room for the rest.
abbrev online : World
online = record {
  open_fds = 4 ∷ [];
  wire = [];
  connects = good ∷ [];
  sends = accepted 3 ∷ interrupted ∷ again false ∷ [];
  clock = 5000 ∷ [];
  peeks = [];
}

idle-IsValid : IsValid (idle_client, offline)
idle-IsValid = record {
  owned = refl;
  live = refl;
  retries = omega arith;
  delay_min = omega arith;
  delay_max = omega arith;
  unbuffered = refl;
}

busy-IsValid : IsValid (busy_client, online)
busy-IsValid = record {
  owned = refl;
  live = refl;
  retries = omega arith;
  delay_min = omega arith;
  delay_max = omega arith;
  unbuffered = refl;
}

client-IsSpent : IsSpent (spent_client, offline)
client-IsSpent = record { down = refl; spent = omega arith }

abbrev text : List ℕ
text = codes "[{}]"

abbrev long_text : List ℕ
long_text = replicate 65536 0x20

reconnect_over-Reconnected_example :
    Yields (Reconnected (busy_client, online)) (reconnect_over (flush_at 0) (busy_client, online))
reconnect_over-Reconnected_example =
    reconnect_over-Reconnected (flush_at 0) (busy_client, online) busy-IsValid
