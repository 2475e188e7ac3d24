-- ===== src/Audio.antt =====
-- client/src/features/audio: the queue of frames to send, the jitter buffer and the voice gate.
pub mod VoiceQueue
pub mod JitterBuffer
pub mod VadGate
