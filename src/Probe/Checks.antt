-- ===== src/Probe/Checks.antt =====
-- The payload readers on concrete packets.
use stb_e_bpf.Base.{
  All, ℕ, ◌+◌, ◌≤◌, ◌≡◌, refl, false, some, List, [], ◌∷◌, ◌++◌, arith, length, replicate, codes,
  slice, strncpy, decimal, digits_of, true, take,
}
use stb_e_bpf.Flow.{FlowEvent, zero_event}
use stb_e_bpf.PacketParser.{PktEvent, zero_pkt}
use stb_e_bpf.PacketParser.Fields.{Address, Ipv4Header, TcpHeader}
use stb_e_bpf.Probe.Dns.{parse_dns_payload, c_string}
use stb_e_bpf.Probe.Dns.Safety.{parse_dns_payload-returns}
use stb_e_bpf.Probe.Dns.Query.{
  IsLabel, dotted, more_labels, encoded_size, query_bytes, type_names, name_in,
  parse_dns_payload-query,
}
use stb_e_bpf.Probe.Http.{
  put_http, parse_http_payload, describe_request, describe_response, request_method, request_path,
  header_value, strchr, before, strcasestr, begins, skip_blank, read_digits, atoi_of, line_value,
}
use stb_e_bpf.Probe.Http.Request.{IsWord, told_host, request_bytes, parse_http_payload-request}

-- A payload whose label says that it is longer than the payload.
abbrev broken : List ℕ
broken = replicate 12 1 ++ (60 ∷ b'a' ∷ b'b' ∷ [])

parse_dns_payload-returns_example :
    (flow' : FlowEvent) × (parse_dns_payload broken 15 zero_event false ≡ some flow')
parse_dns_payload-returns_example =
    parse_dns_payload-returns broken 15 (omega arith) zero_event false

abbrev labels : List (List ℕ)
labels = (b'a' ∷ b'b' ∷ []) ∷ (b'c' ∷ []) ∷ []

ab-IsLabel : IsLabel (b'a' ∷ b'b' ∷ [])
ab-IsLabel = record {
  some_byte = omega arith;
  short = omega arith;
  nonzero = (omega arith, (omega arith, tt));
}

c-IsLabel : IsLabel (b'c' ∷ [])
c-IsLabel = record { some_byte = omega arith; short = omega arith; nonzero = (omega arith, tt) }

dotted_size : length (dotted labels) ≤ 255
unfolding dotted more_labels
dotted_size = omega arith

encoded_labels : encoded_size labels + 15 ≤ 20
unfolding encoded_size
encoded_labels = omega arith

parse_dns_payload-query_example :
    parse_dns_payload (query_bytes 7 0x100 labels 28 (0 ∷ 1 ∷ [])) 20 zero_event false
    ≡ some (record zero_event {
      details =
          take 127 (
            codes "dns_query:name="
            ++ (dotted labels ++ (codes ",type=" ++ name_in type_names 28)));
    })
parse_dns_payload-query_example =
    parse_dns_payload-query 7 0x100 28 20 labels (0 ∷ 1 ∷ []) zero_event
      (ab-IsLabel, (c-IsLabel, tt)) dotted_size encoded_labels

abbrev any : Address
any = record { a = 1; b = 2; c = 3; d = 4 }

abbrev ip_header : Ipv4Header
ip_header = record {
  ihl = 5;
  tos = 0;
  total_length = 40;
  id = 7;
  flags = 2;
  ttl = 64;
  protocol = 6;
  checksum = 0;
  source = any;
  destination = any;
}

abbrev ack_header : TcpHeader
ack_header = record {
  source = 80;
  destination = 40000;
  sequence = any;
  acknowledgment = any;
  offset = 5;
  control = 0x10;
  window = 1024;
  checksum = 0;
  urgent = 0;
}

abbrev macs : List ℕ
macs = replicate 12 2

abbrev tcp_pkt : PktEvent
tcp_pkt = record zero_pkt { protocol = 6; ip_version = 4 }

-- A pure ACK of 54 bytes in a frame that is padded to 60: six bytes of payload.
-- The two kinds of HTTP messages.
http_request_test :
    parse_http_payload (codes "GET /a HTTP/1.1" ++ (13 ∷ 10 ∷ codes "Host:  b")) 25 zero_event false
    ≡ some (put_http (codes "http_req:method=GET,path=/a,host=b") zero_event)
unfolding parse_http_payload describe_request request_method request_path header_value strchr before
    strcasestr begins skip_blank line_value slice c_string codes strncpy decimal
http_request_test = refl

http_response_test :
    parse_http_payload
      (codes "HTTP/1.1 404 No" ++ (10 ∷ codes "Content-type: t/h"))
      33
      zero_event
      true
    ≡ some (put_http (codes "http_resp:status=404,content_type=t/h") zero_event)
unfolding parse_http_payload describe_response header_value strchr strcasestr begins skip_blank
    read_digits atoi_of line_value slice c_string codes strncpy decimal digits_of
http_response_test = refl

abbrev http_method : List ℕ
http_method = b'G' ∷ b'E' ∷ b'T' ∷ []

abbrev http_path : List ℕ
http_path = b'/' ∷ b'a' ∷ []

abbrev http_rest : List ℕ
http_rest = replicate 5 b'x'

http_method-IsWord : All IsWord http_method
http_method-IsWord =
    ((omega arith, omega arith), ((omega arith, omega arith), ((omega arith, omega arith), tt)))

http_path-IsWord : All IsWord http_path
http_path-IsWord = ((omega arith, omega arith), ((omega arith, omega arith), tt))

parse_http_payload-request_example :
    parse_http_payload (request_bytes http_method http_path http_rest) 12 zero_event false
    ≡ some (record zero_event {
      details = take 127 (
          codes "http_req:method="
          ++ (http_method
              ++ (codes ",path="
                  ++ (http_path
                      ++ (codes ",host="
                          ++ told_host (
                              header_value
                                (c_string (request_bytes http_method http_path http_rest))
                                (codes "Host:")
                                (codes "host:")
                                256))))));
      service = codes "HTTP";
    })
parse_http_payload-request_example =
    parse_http_payload-request http_method http_path http_rest http_method-IsWord http_path-IsWord
      zero_event (omega arith) (omega arith) (omega arith) (omega arith) (omega arith) (omega arith)
