-- ===== src/Client.antt =====
-- The client application (src/client).
pub mod Mmap
pub mod Audio
pub mod Monitors
pub mod Draw
pub mod Json
pub mod Session
pub mod ConnectDialog
pub mod Pinentry
pub mod Logging
pub mod Painting
pub mod ClipboardThread
