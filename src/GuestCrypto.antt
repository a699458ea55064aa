-- ===== src/GuestCrypto.antt =====
-- The binary encodings and the result tokens of a guest: apps/api/src/guest-crypto.
pub mod Binary
pub mod ResultToken
mod Tests
