-- ===== src/Rendezvous.antt =====
-- How devices find each other: sealed pairing offers and sealed endpoints, kept until they expire.
pub mod Pairing
pub mod Endpoints
