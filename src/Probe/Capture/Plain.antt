-- ===== src/Probe/Capture/Plain.antt =====
-- What the events of the capture loop say of the payload: nothing.
use stb_e_bpf.Base.{◌≡◌, Option, none, some, [], All, codes, if◌then◌else◌}
use stb_e_bpf.Flow.{FlowEvent}
use stb_e_bpf.FlowTracker.{FlowTracker}
use stb_e_bpf.FlowTracker.Writes.{is_group}
use stb_e_bpf.FlowTracker.Retransmit.{AckTable}
use stb_e_bpf.Probe.Capture.{Probe}

-- An event without any finding: an ordinary flow, with no details, flags, payload type, bandwidth,
-- mark or retransmission, and a service and tags only where its destination is a multicast group.
pub record IsPlain (ev : FlowEvent) : Type 0 where
  pub category : ev.category ≡ codes "network"
  pub event_type : ev.event_type ≡ codes "flow"
  pub details : ev.details ≡ []
  pub tcp_flags : ev.tcp_flags ≡ 0
  pub payload_type : ev.payload_type ≡ 0
  pub anomaly : ev.anomaly ≡ 0
  pub bandwidth : ev.bandwidth_bps ≡ 0
  pub retransmits : ev.retransmits ≡ 0
  pub dup_acks : ev.dup_acks ≡ 0
  pub service : ev.service ≡ (if is_group ev.dst_ip then codes "IPTV" else [])
  pub tags : ev.tags ≡ (if is_group ev.dst_ip then codes "iptv,multicast" else [])

abbrev SameEvents : FlowTracker → Option (FlowTracker × AckTable × FlowEvent) → Type 0
SameEvents tracker none = Unit
SameEvents tracker (some l) = l.0.events ≡ tracker.events

abbrev Plain : Option Probe → Type 0
Plain none = Unit
Plain (some p) = All IsPlain p.tracker.events
