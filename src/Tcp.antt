-- ===== src/Tcp.antt =====
-- Layer 5, include/tcp_lite.h and src/tcp_lite.cpp: the reliable datagram protocol.
pub mod Crc
pub mod Header
pub mod Bitmap
pub mod Memory
pub mod Unacked
pub mod Session
pub mod Endpoint
pub mod Network
mod Examples
