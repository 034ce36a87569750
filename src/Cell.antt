-- ===== src/Cell.antt =====
-- pkg/cell/cell.go: link cells and their encoding.
-- An io.Writer is the bytes written so far with the room left before it fails, and an io.Reader is
-- the bytes still to be read. A byte slice is a list of numbers below 256.
pub mod Io
pub mod Codec
pub mod Relay
pub mod Replay
