-- ===== src/Trace/Packets/Decode.antt =====
-- The flow events of bpf/network_flow.bpf.c: which ports they have, and what src/main.c makes of
-- them.
use stb_e_bpf.Base.{
  ℕ, zero, suc, ◌+◌, ◌*◌, ◌/◌, ◌%◌, ◌<◌, ◌≡◌, Option, some, List, [], ◌∷◌, ◌++◌, arith, length,
  slice, be16, le16, le32, ap, false, sym, ◌∙◌, length-append,
}
use stb_e_bpf.PacketParser.Fields.{Ipv4Header, TcpHeader, ipv4_bytes, tcp_bytes, word}
use stb_e_bpf.Probe.Sources.{decode_pkt}
use stb_e_bpf.Trace.Packets.{Skb, Fe, skb_len, ex, load_ports, flow_of, f1}

-- The `n` low bytes of a number on a little-endian machine.
abbrev pub le_bytes : ℕ → ℕ → List ℕ
le_bytes zero w = []
le_bytes (suc n) w = w % 0x100 ∷ le_bytes n (w / 0x100)

-- `struct fe` in memory, with the bytes that are behind it.
unfoldable pub fe_bytes : Fe → List ℕ → List ℕ
fe_bytes e rest =
    le_bytes 8 e.ts
    ++ le_bytes 4 e.si
    ++ le_bytes 4 e.di
    ++ le_bytes 4 e.by
    ++ le_bytes 4 e.pk
    ++ le_bytes 2 e.sp
    ++ le_bytes 2 e.dp
    ++ (e.pr % 0x100 ∷ e.dir % 0x100 ∷ 0 ∷ 0 ∷ rest)

-- Where the probe reads the two structures differently.
decode_pkt-fe :
    (e : Fe) (rest : List ℕ)
    → e.by < 0x1_0000_0000
    → e.pk ≡ 1
    → ((decode_pkt (fe_bytes e rest)).protocol ≡ 1)
      × ((decode_pkt (fe_bytes e rest)).pkt_len ≡ 0)
      × ((decode_pkt (fe_bytes e rest)).src_port
            + (decode_pkt (fe_bytes e rest)).dst_port * 0x1_0000
          ≡ e.by)
      × ((decode_pkt (fe_bytes e rest)).src_ip ≡ e.si % 0x1_0000_0000)
unfolding decode_pkt fe_bytes le16 le32
decode_pkt-fe e rest size one = (rw one, rw one, omega arith, omega arith)

-- The event of a packet counts its bytes, and one packet.
flow_of-counts :
    (now : ℕ) (s : Skb) (direction : ℕ)
    → ((flow_of now s direction).by ≡ skb_len s) × ((flow_of now s direction).pk ≡ 1)
unfolding flow_of load_ports
flow_of-counts now s direction = ground arith

-- A packet that is reported is reported as that event.
f1-flow_of :
    (exclude : ℕ → Option ℕ) (now : ℕ) (s : Skb) (e : Fe)
    → f1 exclude now s ≡ some e
    → flow_of now s 0 ≡ e
unfolding f1
f1-flow_of exclude now s e run = ground arith

-- For any packet that the program on received packets reports: read as the probe's event, it has
-- protocol 1, which is ICMP, length 0, and the two halves of the packet's length as its ports.
pub f1-decode_pkt :
    (exclude : ℕ → Option ℕ) (now : ℕ) (s : Skb) (e : Fe) (rest : List ℕ)
    → skb_len s < 0x1_0000_0000
    → f1 exclude now s ≡ some e
    → ((decode_pkt (fe_bytes e rest)).protocol ≡ 1)
      × ((decode_pkt (fe_bytes e rest)).pkt_len ≡ 0)
      × ((decode_pkt (fe_bytes e rest)).src_port
            + (decode_pkt (fe_bytes e rest)).dst_port * 0x1_0000
          ≡ skb_len s)
f1-decode_pkt exclude now s e rest size run =
    let same = f1-flow_of exclude now s e run in
    let counts = flow_of-counts now s 0 in
    let by : e.by ≡ skb_len s = ap Fe.by (sym same) ∙ counts.0 in
    let read = decode_pkt-fe e rest (omega (arith, by, size)) (ap Fe.pk (sym same) ∙ counts.1) in
    (read.0, read.1, read.2 ∙ by)

-- The addresses of the link layer.
pub record Mac : Type 0 where
  pub m0 : ℕ
  pub m1 : ℕ
  pub m2 : ℕ
  pub m3 : ℕ
  pub m4 : ℕ
  pub m5 : ℕ

-- A frame that carries IPv4.
abbrev pub ipv4_frame : Mac → Mac → List ℕ → List ℕ
ipv4_frame d s packet =
    d.m0 ∷ d.m1 ∷ d.m2 ∷ d.m3 ∷ d.m4 ∷ d.m5 ∷ s.m0 ∷ s.m1 ∷ s.m2 ∷ s.m3 ∷ s.m4 ∷ s.m5 ∷ 8 ∷ 0
    ∷ packet

-- A TCP packet without options whose receiver is not excluded is reported with its addresses, its
-- ports and its protocol.
pub f1-ports :
    (exclude : ℕ → Option ℕ) (now : ℕ) (d s : Mac) (h : Ipv4Header) (t : TcpHeader)
    (payload paged : List ℕ)
    → h.protocol ≡ 6
    → ex exclude (word h.destination) ≡ false
    → f1 exclude now
        (record { linear = ipv4_frame d s (ipv4_bytes h (tcp_bytes t payload)); paged = paged })
      ≡ some (record {
        ts = now;
        si = word h.source;
        di = word h.destination;
        by = 54 + length payload + length paged;
        pk = 1;
        sp = t.source;
        dp = t.destination;
        pr = 6;
        dir = 0;
      })
unfolding f1 flow_of load_ports slice be16 le16 le32
f1-ports exclude now d s h t payload paged tcp excluded =
    rw (excluded, tcp) (ground (arith, length-append payload paged))

-- With four bytes of options or more, the same program takes the first four of them for the ports.
pub f1-options :
    (exclude : ℕ → Option ℕ) (now : ℕ) (d s : Mac) (h : Ipv4Header) (a b c e : ℕ) (options : List ℕ)
    (t : TcpHeader) (payload paged : List ℕ)
    → h.protocol ≡ 6
    → ex exclude (word h.destination) ≡ false
    → f1 exclude now (record {
      linear = ipv4_frame d s (ipv4_bytes h (a ∷ b ∷ c ∷ e ∷ (options ++ tcp_bytes t payload)));
      paged = paged;
    })
      ≡ some (record {
        ts = now;
        si = word h.source;
        di = word h.destination;
        by = 58 + length options + length payload + length paged;
        pk = 1;
        sp = a * 0x100 + b;
        dp = c * 0x100 + e;
        pr = 6;
        dir = 0;
      })
unfolding f1 flow_of load_ports slice be16 le16 le32
f1-options exclude now d s h a b c e options t payload paged tcp excluded =
    let rest = options ++ tcp_bytes t payload in
    rw (excluded, tcp)
      (ground (arith, length-append rest paged, length-append options (tcp_bytes t payload)))
