-- ===== src/Forwarder/Gtp5g.antt =====
-- internal/forwarder/gtp5g.go: the forwarder that hands the rules to the kernel module gtp5g over
-- netlink. go-gtp5gnl, go-nl and go-pfcp are parameters.
pub mod Attr
pub mod Flow
pub mod Pdr
pub mod Far
pub mod Qer
pub mod Urr
pub mod Kernel
pub mod Apply
pub mod Query
pub mod Rules
pub mod Ports
pub mod SameQer
pub mod Batches
pub mod Limit
pub mod Released
pub mod Periods
pub mod Sent
pub mod Calls
