-- ===== src/Pairing.antt =====
-- Device pairing: internal/domain/device_pairing.go and the code generator of
-- internal/pairing/code.go.
pub mod Code
pub mod Session
pub mod Device
