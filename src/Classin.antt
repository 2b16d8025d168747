-- ===== src/Classin.antt =====
-- classin/: the ClassIn side, that is the webhook's payloads and the signatures.
pub mod Schemas
pub mod Ended
pub mod Signing
pub mod Client
pub mod Accepted
pub mod V2
pub mod Actions
pub mod Order
pub mod Sorted
pub mod Signed
