-- ===== src/PacketParser/Vlan.antt =====
-- An 802.1Q tag changes nothing but where the headers stand.
use stb_e_bpf.Base.{
  ℕ, ◌+◌, ◌-◌, ◌*◌, ◌≤◌, ◌≡◌, ◌≢◌, List, [], ◌∷◌, ◌++◌, length, arith, sym, ◌∙◌, length-append,
  slice-append, get_elem?-append, get_elem?-append_left,
}
use stb_e_bpf.PacketParser.{
  PktEvent, parse_ipv4_transport, parse_ipv4, parse_ipv6_transport, parse_ipv6, parse_network,
  packet_parse_raw,
}

-- A prefix of `length pre` bytes shifts the length and the offset, and nothing else.
module _ (pre xs : List ℕ) (l len : ℕ) (hl : l ≡ length pre + len) where
  pub parse_ipv4_transport-shift :
      (o k : ℕ) (evt : PktEvent)
      → o ≡ length pre + k
      → parse_ipv4_transport (pre ++ xs) l o evt ≡ parse_ipv4_transport xs len k evt
  unfolding parse_ipv4_transport
  parse_ipv4_transport-shift o k evt h =
      ground (arith, slice-append pre xs o k 20 h, slice-append pre xs o k 8 h)

  pub parse_ipv4-shift :
      (o k : ℕ) (evt : PktEvent)
      → o ≡ length pre + k
      → parse_ipv4 (pre ++ xs) l o evt ≡ parse_ipv4 xs len k evt
  unfolding parse_ipv4
  parse_ipv4-shift o k evt h =
      rw (slice-append pre xs o k 20 h) (grind (arith, parse_ipv4_transport-shift))

  parse_ipv6_transport-shift :
      (o k : ℕ) (evt : PktEvent)
      → o ≡ length pre + k
      → parse_ipv6_transport (pre ++ xs) l o evt ≡ parse_ipv6_transport xs len k evt
  unfolding parse_ipv6_transport
  parse_ipv6_transport-shift o k evt h =
      ground (arith, slice-append pre xs o k 20 h, slice-append pre xs o k 8 h)

  parse_ipv6-shift :
      (o k : ℕ) (evt : PktEvent)
      → o ≡ length pre + k
      → parse_ipv6 (pre ++ xs) l o evt ≡ parse_ipv6 xs len k evt
  unfolding parse_ipv6
  parse_ipv6-shift o k evt h =
      rw (slice-append pre xs o k 40 h) (grind (arith, parse_ipv6_transport-shift))

  parse_network-shift :
      (proto o k : ℕ) (evt : PktEvent)
      → o ≡ length pre + k
      → parse_network (pre ++ xs) l proto o evt ≡ parse_network xs len proto k evt
  unfolding parse_network
  parse_network-shift proto o k evt h =
      ground (arith, parse_ipv4-shift o k evt h, parse_ipv6-shift o k evt h)

-- The two bytes of the EtherType, then the packet.
abbrev pub untagged : List ℕ → ℕ → ℕ → List ℕ → List ℕ
untagged macs hi lo body = macs ++ (hi ∷ lo ∷ body)

abbrev pub tagged : List ℕ → ℕ → ℕ → ℕ → ℕ → List ℕ → List ℕ
tagged macs t u hi lo body = (macs ++ (0x81 ∷ 0x00 ∷ t ∷ u ∷ [])) ++ (hi ∷ lo ∷ body)

module _ (macs : List ℕ) (hi lo : ℕ) (body : List ℕ) (len : ℕ) (addresses : length macs ≡ 12)
    (plain : hi * 0x100 + lo ≢ 0x8100) (long : 14 ≤ len) where
  pub untagged_lem :
      (evt : PktEvent)
      → packet_parse_raw (untagged macs hi lo body) len evt
        ≡ parse_network (hi ∷ lo ∷ body) (len - 12) (hi * 0x100 + lo) 2 evt
  unfolding packet_parse_raw
  untagged_lem evt =
      let at = get_elem?-append macs (hi ∷ lo ∷ body) in
      ground (
        arith,
        at 12 0 (omega arith),
        at 13 1 (omega arith),
        parse_network-shift macs (hi ∷ lo ∷ body) len (len - 12) (omega arith) (hi * 0x100 + lo) 14
            2 evt (omega arith),
      )

  tagged_lem :
      (t u : ℕ) (evt : PktEvent)
      → packet_parse_raw (tagged macs t u hi lo body) (len + 4) evt
        ≡ parse_network (hi ∷ lo ∷ body) (len - 12) (hi * 0x100 + lo) 2 evt
  unfolding packet_parse_raw
  tagged_lem t u evt =
      let tag : List ℕ = 0x81 ∷ 0x00 ∷ t ∷ u ∷ [] in
      let size : length (macs ++ tag) ≡ 16 = omega (arith, length-append macs tag) in
      let at = get_elem?-append (macs ++ tag) (hi ∷ lo ∷ body) in
      let left = get_elem?-append_left (macs ++ tag) (hi ∷ lo ∷ body) in
      ground (
        arith,
        left 12 (omega arith),
        left 13 (omega arith),
        get_elem?-append macs tag 12 0 (omega arith),
        get_elem?-append macs tag 13 1 (omega arith),
        at 16 0 (omega arith),
        at 17 1 (omega arith),
        parse_network-shift (macs ++ tag) (hi ∷ lo ∷ body) (len + 4) (len - 12) (omega arith)
            (hi * 0x100 + lo) 18 2 evt (omega arith),
      )

  -- For a frame with two 6-byte addresses whose EtherType is not 0x8100, and a received length of
  -- at least 14, putting an 802.1Q tag (with any two bytes of tag data) behind the addresses, and
  -- receiving four bytes more, gives the same return value and the same event.
  pub packet_parse_raw-tagged :
      (t u : ℕ) (evt : PktEvent)
      → packet_parse_raw (tagged macs t u hi lo body) (len + 4) evt
        ≡ packet_parse_raw (untagged macs hi lo body) len evt
  packet_parse_raw-tagged t u evt = tagged_lem t u evt ∙ sym (untagged_lem evt)
