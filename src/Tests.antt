-- ===== src/Tests.antt =====
-- Runs of the model on concrete input, and for each theorem an input on which its hypotheses hold.
mod Sess
mod Node
mod Server
mod Handlers
mod Packet
mod Userspace
mod Perio
mod FlowDesc
mod Gtp5g
mod Adaptive
mod Sbi
