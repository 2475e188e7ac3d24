-- ===== src/Protocol.antt =====
-- client/src/protocol: frames, messages, streams, handshakes and the safety phrase.
pub mod Envelope
pub mod RelayControl
pub mod Reliable
pub mod Json
pub mod Messages
pub mod Streams
pub mod Negotiation
pub mod Handshake
