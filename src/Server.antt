-- ===== src/Server.antt =====
-- host/src/network/server.cpp, a child module for each part of the class NetworkServer.
pub mod Video
pub mod Auth
pub mod Rate
pub mod Flow
pub mod Stream
pub mod State
pub mod Sending
pub mod Media
pub mod Session
pub mod Discovery
