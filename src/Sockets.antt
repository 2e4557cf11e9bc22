-- ===== src/Sockets.antt =====
-- What the relay keeps for each connected socket.
pub mod Allowances
pub mod Ingress
pub mod Presence
pub mod Delivery
