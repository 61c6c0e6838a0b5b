-- ===== src/Lib.antt =====
-- The probe of STB-eBPF: the C program under src/ that captures packets on a set-top box, keeps a
-- table of flows, looks for anomalies and sends its events to a relay as JSON.
--
-- The main program (src/main.c) reads frames from a raw socket. Each frame goes through the packet
-- parser, readers for DNS, HTTP and TCP sequence numbers, the flow tracker and the anomaly
-- detector; the table under /proc/net is polled too, and without BPF it is the only source. In
-- each round the tracker's events are serialized into one buffer, and the TCP client sends the
-- buffer.
--
-- Parts, and the files that model them:
--   Base            lists as arrays, machine words, C strings, bit masks, Boolean tests
--   Flow            include/common.h: constants, flow_key_t, flow_value_t, flow_event_t,
--                   proc_net_entry, IS_MULTICAST, ip_to_str
--   PacketParser    src/packet_parser.c: packet_parse_raw, and in Convert packet_to_flow_event
--   FlowTracker     src/flow_tracker.c: find_record, the update functions, get_events, flush,
--                   cleanup, get_stats; in Retransmit flow_tracker_check_tcp_retransmit; Ledger is
--                   what the table promises
--   Connect         bpf/stb_connect.bpf.c: the handlers of connect() and their map of start times
--   Anomaly         src/anomaly.c: find_src, find_bw, anomaly_check_flow
--   ProcNet         src/proc_net.c: parse_proc_net_file, with the conversions of sscanf it uses;
--                   in Dev proc_net_read_dev
--   BpfLoader       src/bpf_loader.c: bpf_loader_init, bpf_loader_create_perf_buffer,
--                   bpf_loader_cleanup; in Perf bpf_loader_read_perf_events, in Elf parse_bpf_elf
--   RuntimeConfig   src/runtime_config.c: config_load_from_env
--   HostMetrics     src/host_metrics.c: the shares of the processor and the memory, the record
--   Trace           the tracing programs under bpf/ with struct event of bpf/common.h: in Payload
--                   dns_trace, http_trace, db_trace and http_capture, in Timers block_trace, syscall
--                   and tcp_connect, in Points mem_trace, sched_trace, security_trace, file_open and
--                   process_exec; in Packets network_flow and the socket filters
--   TcpClient       src/tcp_client.c: connect, disconnect, reconnect; in Send tcp_client_send,
--                   tcp_client_flush, tcp_client_is_connected; Wire is what a send puts out
--   Probe           src/main.c: in Dns parse_dns_payload, in Http parse_http_payload,
--                   in Sequence extract_tcp_seq_num,
--                   in Capture the body of the capture loop for one frame,
--                   in Sources read_bpf_events and read_raw_packets, in Loop the rounds of the
--                   main loop, in Startup the arguments and the start of the program
--   Serializer      src/serializer.c: serialize_flow_event, serialize_batch
--
-- Numbers are natural numbers with the wrap-around of their C type written out where the code can
-- reach it, for the 32-bit target, on which a long has 32 bits. A function on memory takes the
-- list of the bytes that may be read, and a read outside is the result `none`, so that a theorem
-- that gives `some` shows that there is none. Answers of the operating system and readings of the
-- clock are arguments or lists of replies. Pointers that every caller passes not null are not
-- tested for null.
--
-- Fuel: the loop over the labels of a DNS name runs on the payload's length, and each round moves
-- on by at least one byte. The functions of the TCP client call each other in a cycle through the
-- flush in tcp_client_disconnect; `flush_at` bounds its depth, and on a valid client, whose send
-- buffer is always empty, no flush is made, so that any depth is enough. The loop around send ends
-- with the replies, and a send with no reply left is taken to fail. Printing a number runs on the
-- number itself, which has fewer digits. The loop over a perf ring buffer runs on fuel, because a
-- record of size zero makes it endless; one more than the number of its records is enough where
-- each has a size. The rounds of the main loop end with their inputs.
--
-- Not modelled: the quotients of the host metrics and their printing, which are floating point,
-- log output, signal handlers, the freeing of objects, the headers under bpf/ that are copies of
-- another project's, and the Go program under cmd/, internal/ and pkg/. The calls of the kernel's
-- helpers from the programs under bpf/ are arguments, or written out by their documentation.
pub mod Base
pub mod Flow
pub mod PacketParser
pub mod FlowTracker
pub mod Connect
pub mod Trace
pub mod Anomaly
pub mod ProcNet
pub mod RuntimeConfig
pub mod BpfLoader
pub mod TcpClient
pub mod Probe
pub mod Serializer
pub mod HostMetrics
