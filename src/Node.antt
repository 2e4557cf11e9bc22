-- ===== src/Node.antt =====
-- src/node: what the Node server keeps.
pub mod Heartbeat
pub mod Mailbox
pub mod Admission
