-- ===== src/Trace/Checks.antt =====
-- The tracing programs on concrete events.
use stb_e_bpf.Base.{
  ℕ, ◌+◌, ◌*◌, ◌≡◌, refl, true, false, none, some, Option, List, [], ◌∷◌, arith, leb, if◌then◌else◌,
  length, get_elem?, take, drop, replicate, codes, ◌==◌,
}
use stb_e_bpf.PacketParser.Fields.{Address, Ipv4Header, TcpHeader, ipv4_bytes, tcp_bytes, word}
use stb_e_bpf.Probe.Sources.{decode_pkt}
use stb_e_bpf.Trace.{Event, Task, Sock, emit, data_len}
use stb_e_bpf.Trace.Payload.{Iov, zero_event, copy_payload}
use stb_e_bpf.Trace.Payload.Copy.{copy_payload-writes}
use stb_e_bpf.Trace.Timers.{Tracer, sys_enter}
use stb_e_bpf.Trace.Timers.Latency.{enter, run, step}
use stb_e_bpf.Trace.Points.{security_file_open, do_filp_open}
use stb_e_bpf.Trace.Points.Stale.{security_file_open-stale}
use stb_e_bpf.Trace.Packets.{Skb, Fe, ex}
use stb_e_bpf.Trace.Packets.Decode.{Mac, ipv4_frame, fe_bytes, f1-ports, f1-decode_pkt}

abbrev task : Task
task = record { pid_tgid = 0x5_0000_0007; comm = codes "sh" }

-- What an earlier event left in the ring.
abbrev stale : Event
stale = record zero_event { ppid = 12; count = 3; data_bytes = replicate 256 7 }

abbrev dns_sock : Sock
dns_sock = record { rcv_saddr = 0x0100_000a; daddr = 0x0200_000a; num = 4096; dport = 0x3500 }

abbrev long_iov : Iov
long_iov = record { has_base = true; iov_len = 300; user = replicate 300 9 }

copy_payload-writes_example :
    (length (copy_payload (some long_iov) stale.data_bytes) ≡ data_len)
    × (take 255 (copy_payload (some long_iov) stale.data_bytes)
        ≡ (if leb 255 (length long_iov.user) then take 255 long_iov.user else replicate 255 0))
    × (get_elem? (copy_payload (some long_iov) stale.data_bytes) 255 ≡ some 0)
copy_payload-writes_example = copy_payload-writes long_iov stale.data_bytes refl (omega arith) refl

abbrev other_task : Task
other_task = record { pid_tgid = 0x6_0000_0008; comm = codes "ls" }

abbrev tracer : Tracer
tracer = record {
  starts = [];
  sizes = [];
  rb = record { reserved = none ∷ none ∷ some stale ∷ []; events = [] };
}

-- A place is left for the third event.
ready :
    (run (sys_enter task 100 3 tracer) (enter other_task 110 4 ∷ [])).rb.reserved ≡ some stale ∷ []
unfolding run step sys_enter emit
ready = refl

abbrev mac : Mac
mac = record { m0 = 2; m1 = 0; m2 = 0; m3 = 0; m4 = 0; m5 = 1 }

abbrev server : Address
server = record { a = 192; b = 168; c = 1; d = 10 }

abbrev ip_header : Ipv4Header
ip_header = record {
  ihl = 5;
  tos = 0;
  total_length = 40;
  id = 7;
  flags = 2;
  ttl = 64;
  protocol = 6;
  checksum = 0;
  source = server;
  destination = server;
}

abbrev tcp_header : TcpHeader
tcp_header = record {
  source = 40000;
  destination = 80;
  sequence = server;
  acknowledgment = server;
  offset = 5;
  control = 2;
  window = 1024;
  checksum = 0;
  urgent = 0;
}

-- Another address is excluded.
abbrev exclude : ℕ → Option ℕ
exclude ip = if ip == 1 then some 1 else none

not_excluded : ex exclude (word server) ≡ false
unfolding ex
not_excluded = refl

abbrev tcp_packet : Skb
tcp_packet = record {
  linear = ipv4_frame mac mac (ipv4_bytes ip_header (tcp_bytes tcp_header []));
  paged = [];
}

abbrev tcp_event : Fe
tcp_event = record {
  ts = 9;
  si = word server;
  di = word server;
  by = 54;
  pk = 1;
  sp = 40000;
  dp = 80;
  pr = 6;
  dir = 0;
}

f1-decode_pkt_example :
    ((decode_pkt (fe_bytes tcp_event (replicate 8 0))).protocol ≡ 1)
    × ((decode_pkt (fe_bytes tcp_event (replicate 8 0))).pkt_len ≡ 0)
    × ((decode_pkt (fe_bytes tcp_event (replicate 8 0))).src_port
          + (decode_pkt (fe_bytes tcp_event (replicate 8 0))).dst_port * 0x1_0000
        ≡ 54)
f1-decode_pkt_example =
    f1-decode_pkt exclude 9 tcp_packet tcp_event (replicate 8 0) (omega arith)
      (f1-ports exclude 9 mac mac ip_header tcp_header [] [] refl not_excluded)

abbrev passwd : List ℕ
passwd = b'p' ∷ b'a' ∷ b's' ∷ b's' ∷ b'w' ∷ b'd' ∷ []

security_file_open-stale_example :
    (a b : Event) × ((security_file_open task 9
        (some passwd)
        (record { reserved = some stale ∷ []; events = [] })).events
      ≡ a ∷ [])
    × ((do_filp_open task 9
          (some passwd)
          (record { reserved = some stale ∷ []; events = [] })).events
        ≡ b ∷ [])
    × (drop 7 a.data_bytes ≡ replicate 249 7)
    × (drop 7 b.data_bytes ≡ replicate 249 0)
security_file_open-stale_example =
    security_file_open-stale task 9 passwd stale [] [] (omega arith) refl
