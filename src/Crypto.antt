-- ===== src/Crypto.antt =====
-- util/Crypto.cpp and util/Crypto.h.
pub mod Cipher
pub mod Mersenne
pub mod Base64
pub mod Keys
