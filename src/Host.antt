-- ===== src/Host.antt =====
-- host/src/main.cpp, a child module for each part of what the host does with a client's requests.
pub mod Input
pub mod Screen
pub mod Streams
pub mod Displays
pub mod Audio
pub mod Worker
pub mod Scaling
pub mod Mjpeg
