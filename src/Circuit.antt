-- ===== src/Circuit.antt =====
-- pkg/circuit/circuit.go: circuits, their cryptographic state, flow control, relay cells and streams,
-- and the manager of the circuits.
pub mod Crypto
pub mod Core
pub mod Flow
pub mod Streams
pub mod Manager
pub mod Isolation
pub mod Dns
pub mod Extension
pub mod Builder
