-- ===== src/Cryptobox.antt =====
-- internal/cryptobox
pub mod Bytes
pub mod Codec
pub mod Context
pub mod Box
