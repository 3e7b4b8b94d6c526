-- ===== src/Client/Audio.antt =====
-- src/client/audio.rs: Opus packets and their stream's state, and the queue of decoded samples.
mod Tests
pub mod Opus
pub mod Pcm
pub mod Protocol
