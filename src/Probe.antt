-- ===== src/Probe.antt =====
-- src/main.c: what the probe reads out of the payload of a packet, and the rounds of its loop.
pub mod Dns
pub mod Http
pub mod Sequence
pub mod Capture
pub mod Sources
pub mod Loop
pub mod Startup
mod Checks
