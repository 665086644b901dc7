-- ===== src/Lib.antt =====
-- go-upf: a 5G user plane function. The control plane (SMF) speaks PFCP to it; a forwarder moves
-- the packets and reports back. This library models the PFCP server, the GTP-U codec, the
-- userspace forwarder, the kernel forwarder, flow descriptions, the server of periodic reports and the
-- subscriptions of the service-based interface.
--
-- The parts and the files that model them:
--
--   internal/pfcp/node.go          Pfcp/Sess.antt, Pfcp/Sess/*.antt, Pfcp/Node.antt, Pfcp/Node/*.antt
--   internal/pfcp/transaction.go   Pfcp/Server.antt, Pfcp/Server/Retransmit.antt
--   internal/pfcp/session.go       Pfcp/Session.antt, Pfcp/Session/*.antt
--   internal/pfcp/association.go,
--   internal/pfcp/heartbeat.go     Pfcp/Association.antt, Pfcp/Association/Restart.antt
--   internal/pfcp/report.go        Pfcp/Serve.antt, Pfcp/Serve/Numbered.antt
--   internal/pfcp/pfcp.go (PopBufPkt)
--                                  Pfcp/PopBuf.antt
--   internal/pfcp/pfcp.go,
--   internal/pfcp/dispacher.go     Pfcp/Server.antt, Pfcp/Loop.antt, Pfcp/Loop/*.antt
--   internal/report/report.go      Report.antt, Report/*.antt
--   internal/gtpv1/msg.go          Gtpv1.antt
--   internal/forwarder/userspace/pipeline.go, decodeGTPU
--                                  Userspace/Gtpu.antt, Userspace/Gtpu/*.antt
--   internal/forwarder/driver.go,
--   internal/forwarder/empty.go    Forwarder.antt
--   internal/forwarder/flowdesc.go Forwarder/FlowDesc.antt, Forwarder/FlowDesc/*.antt
--   internal/forwarder/gtp5g.go    Forwarder/Gtp5g.antt, Forwarder/Gtp5g/*.antt
--   internal/forwarder/perio/server.go
--                                  Perio.antt, Perio/*.antt
--   internal/context/context.go,
--   internal/sbi/processor/processor.go
--                                  Sbi.antt, Sbi/*.antt
--
-- and of the userspace forwarder, internal/forwarder/userspace:
--
--   state.go                       Userspace/Rule.antt, Userspace/Pipeline.antt
--   parse.go                       Userspace/Parse.antt, Userspace/Parse/*.antt
--   sdf.go                         Userspace/Sdf.antt, Userspace/Sdf/*.antt
--   runtime.go                     Userspace/Binding.antt, Userspace/Binding/*.antt, Userspace/Shard.antt
--   driver.go, stats.go            Userspace/State.antt, Userspace/Driver.antt, Userspace/Merge.antt,
--                                  Userspace/Run.antt, Userspace/Run/*.antt
--   pipeline.go                    Userspace/Forward.antt, Userspace/Buffer.antt, Userspace/Pipeline.antt,
--                                  Userspace/Usage.antt and their children
--   bar_delay.go                   Userspace/Buffer.antt, Userspace/Buffer/*.antt
--   qer_rate.go                    Userspace/Meter.antt, Userspace/Meter/*.antt
--   urr_periodic.go                Userspace/Usage.antt
--   adaptive_qos.go                Userspace/Adaptive.antt, Userspace/Adaptive/*.antt
--
-- Base.antt holds what the others share: the libraries' names, Boolean tests, lists measured by
-- native numbers, and finite maps. Tests.antt and its children run the model on concrete input.
--
-- The server (`PfcpServer`) is the record `Server`. One goroutine runs `main`, so one round of it
-- is a function `step` from a state and an event (a packet, a report, an expiry of a timer) to a
-- state; `none` stands for a panic. A handler passes the state through the code's calls in their
-- order. A session (`Sess`) lies in a slot of the table `LocalNode.sess`, a nil slot is `none`,
-- and its pointer to its remote node is the node's index in the store `Nodes.nodes`. A method of
-- a session returns its result, the session and the driver's state; the handlers write the
-- session back to its slot. A Go map is an association list (Base/Maps.antt).
--
-- The forwarder is the record `Driver` of operations on a state of its own, a parameter wherever
-- the source calls the interface. Of go-pfcp the model reads only what its decoders answer: an
-- information element is the record `Ie`, and a message a constructor of `Pfcp.Loop.Message`.
-- net.ResolveUDPAddr is a parameter of `serve_report`.
--
-- The userspace forwarder (`Driver` of userspace) is the record `Userspace`: the sessions with
-- their rules, the snapshot against which packets are matched, the counters, the pending
-- notifications, and what was sent and reported. A packet of a worker's queue goes through
-- `process`, the methods of the control plane are the functions of Userspace/Driver.antt, and
-- `run` makes one of them; `none` stands for a panic. Timers and tickers are calls of
-- `fire_buffered_notification` and `emit_periodic_urr_reports`. A lock is held for a whole call,
-- and a packet is handled at one time. The decoders of go-pfcp, net.ParseCIDR (`parse_cidr`, and
-- `parse_flow` where only the result is used), what the package net makes of an address in
-- flowdesc.go, and float64 (`Floats`, with `FloatLaws` for what IEEE 754 guarantees) are
-- parameters. An address is its four bytes, and the order of a map's entries is the order in
-- which a loop visits them.
--
-- Adaptive QoS keeps its flows in `AdaptiveSessions`, beside the `SessionState` of each session, which
-- has the overrides that the packet path reads.
--
-- The server of periodic reports (`Server` of perio) is the record `PerioServer`; one round of
-- its loop is `serve`, and its callback queryURR is a parameter.
--
-- The subscriptions (`UPFContext`) are the record `UpfContext`, and the handlers of the processor are
-- functions from a request and this record to an answer. The text of a number, url.ParseRequestURI
-- and the time are parameters.
--
-- The kernel forwarder (`Gtp5g`) is the record of the kernel's state, of the events that it puts on
-- the channel of the server of periodic reports, and of the handler of reports. The calls of
-- go-gtp5gnl and of the link are the record `Gtp5gnl` over any state of the kernel, what go-pfcp
-- and the package net decode is the record `Decoders`, and the netlink attributes are the data
-- `AttrList`, with the names of go-gtp5gnl's constants as types. The handler is the record
-- `Handler`; `HandlerLaws` says what its client relies on, and `pfcp_handler_lem` that the PFCP
-- server's PopBufPkt keeps it. A method of the PFCP server that calls the forwarder holds its
-- session by value, and the handler of the forwarder is a state of its own.
--
-- Bounds. uint8, uint16 and uint32 counters wrap as the source's do (`retrans_count`,
-- `ref_pdr_num`, `seqn`, `tx_seq`); the counters and volumes of the userspace forwarder wrap at 2
-- ^ 64; identifiers and sequence numbers that the code only compares and copies are plain
-- numbers. A byte is a number, and the encoder writes each one modulo 256 where it takes it out
-- of a wider field. The loop over GTP-U extension headers runs on fuel, the length of the packet;
-- each round passes at least four bytes, so that it is enough.
-- The loop over a PDR's waiting packets runs on fuel, one more than wait, and each round takes one.
--
-- Not modelled: goroutines other than `main`, sockets and timers; texts of the log and of errors;
-- constants in responses (time stamps, the UPF's own node name and address); the sockets, the
-- tunnel device and the workers' goroutines of the userspace forwarder; of adaptive
-- QoS the servers, the trace and the matching of packets to flows; of the kernel forwarder the opening of the devices and the
-- messages that buffnetlink decodes; of the SBI the HTTP server, the profile and the registration with
-- the NRF; configuration and start-up.
pub mod Base
pub mod Gtpv1
pub mod Userspace
pub mod Report
pub mod Forwarder
pub mod Sbi
pub mod Perio
pub mod Pfcp
pub mod Tests
