-- ===== src/PacketParser/Safety.antt =====
-- `packet_parse_raw` reads only inside the frame, whatever the frame holds.
use stb_e_bpf.Base.{
  ℕ, ◌≤◌, ◌<◌, ◌≡◌, refl, ◌⊎◌, none, some, List, length, get_elem?, get_elem?-some, slice-some,
  arith,
}
use stb_e_bpf.PacketParser.{
  PktEvent, Parsed, parse_ipv4_transport, parse_ipv4, parse_ipv6_transport, parse_ipv6,
  parse_network, packet_parse_raw,
}

-- No fault, and the return value is 0 or 1.
abbrev Settles : Parsed → Type 0
Settles none = ⊥
Settles (some (r, evt)) = (r ≡ 0) ⊎ (r ≡ 1)

abbrev pub Returns : Parsed → Type 0
Returns p = (r : ℕ) × (evt : PktEvent) × (p ≡ some (r, evt)) × ((r ≡ 0) ⊎ (r ≡ 1))

Settles→Returns : (p : Parsed) → Settles p → Returns p
Settles→Returns none h = elim h [ ]
Settles→Returns (some (r, evt)) h = (r, evt, refl, h)

module _ (frame : List ℕ) (len : ℕ) (fits : len ≤ length frame) where
  parse_ipv4_transport-Settles :
      (off : ℕ) (evt : PktEvent) → Settles (parse_ipv4_transport frame len off evt)
  unfolding parse_ipv4_transport
  parse_ipv4_transport-Settles off evt =
      ground (arith, slice-some frame off 20, slice-some frame off 8)

  parse_ipv4-Settles : (off : ℕ) (evt : PktEvent) → Settles (parse_ipv4 frame len off evt)
  unfolding parse_ipv4
  parse_ipv4-Settles off evt = grind (arith, slice-some frame off 20, parse_ipv4_transport-Settles)

  parse_ipv6_transport-Settles :
      (off : ℕ) (evt : PktEvent) → Settles (parse_ipv6_transport frame len off evt)
  unfolding parse_ipv6_transport
  parse_ipv6_transport-Settles off evt =
      ground (arith, slice-some frame off 20, slice-some frame off 8)

  parse_ipv6-Settles : (off : ℕ) (evt : PktEvent) → Settles (parse_ipv6 frame len off evt)
  unfolding parse_ipv6
  parse_ipv6-Settles off evt = grind (arith, slice-some frame off 40, parse_ipv6_transport-Settles)

  parse_network-Settles :
      (proto off : ℕ) (evt : PktEvent) → Settles (parse_network frame len proto off evt)
  unfolding parse_network
  parse_network-Settles proto off evt =
      ground (arith, parse_ipv4-Settles off evt, parse_ipv6-Settles off evt)

  read : (i : ℕ) → i < len → (b : ℕ) × (get_elem? frame i ≡ some b)
  read i h = get_elem?-some frame i (omega arith)

  packet_parse_raw-Settles : (evt : PktEvent) → Settles (packet_parse_raw frame len evt)
  unfolding packet_parse_raw
  packet_parse_raw-Settles evt =
      grind (arith, read 12, read 13, read 16, read 17, parse_network-Settles)

  -- If the frame holds at least `len` bytes, then `packet_parse_raw` makes no read outside it, for
  -- any bytes and any `len`, and returns 0 or 1.
  pub packet_parse_raw-Returns : (evt : PktEvent) → Returns (packet_parse_raw frame len evt)
  packet_parse_raw-Returns evt = Settles→Returns _ (packet_parse_raw-Settles evt)
