-- ===== src/Relay.antt =====
-- src/relay: the rules that the Worker's room and the Node server share.
pub mod Json
pub mod Submissions
pub mod Validation
pub mod Support
pub mod Log
pub mod Routing
pub mod Routes
pub mod Policy
pub mod Mailbox
pub mod CoolDown
pub mod Closing
