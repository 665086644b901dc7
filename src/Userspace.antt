-- ===== src/Userspace.antt =====
-- internal/forwarder/userspace: the packet path in user space.
pub mod Gtpu
pub mod Rule
pub mod Parse
pub mod Sdf
pub mod Binding
pub mod Merge
pub mod Forward
pub mod State
pub mod Buffer
pub mod Driver
pub mod Meter
pub mod Usage
pub mod Pipeline
pub mod Run
pub mod Shard
pub mod Adaptive
