-- ===== src/Crypto.antt =====
-- client/src/crypto: padding, the message-key ratchet of the worker, and the secure channel.
pub mod Platform
pub mod Padding
pub mod Toy
pub mod Worker
pub mod Channel
