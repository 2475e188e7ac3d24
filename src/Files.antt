-- ===== src/Files.antt =====
-- client/src/features/file: file transfer.
pub mod Receiver
pub mod Sender
pub mod Delivery
