-- ===== src/Pfcp.antt =====
-- internal/pfcp: the control plane, from the sessions up to the server.
pub mod Sess
pub mod Node
pub mod Server
pub mod Session
pub mod Association
pub mod Serve
pub mod Loop
pub mod PopBuf
