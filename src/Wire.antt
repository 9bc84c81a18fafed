-- ===== src/Wire.antt =====
-- The wire formats that the probe builds and recognises.
pub mod Ike
pub mod L2tp
pub mod Socks5
pub mod Stun
pub mod Vless
