-- ===== src/Userspace/Adaptive.antt =====
-- internal/forwarder/userspace/adaptive_qos.go: bit rates of a session's QERs that an application asks
-- for, for a time. The sockets, the debugging pages and the matching of packets to flows are left out.
pub mod Decision
pub mod Range
pub mod Flows
pub mod Limits
pub mod Spans
pub mod Ended
