-- ===== src/Transport.antt =====
-- The transports' own logic: the framing of byte streams (QUIC, Wi-Fi Direct) and the BLE bearers.
pub mod Stream
pub mod Advertising
pub mod Peripheral
pub mod Gatt
pub mod Mdns
pub mod Quic
pub mod WifiDirect
pub mod Scan
