-- ===== src/Cell/Codec/Typed.antt =====
-- The integers that are read from bytes are in the range of their types.
use go_tor.Prelude.{ℕ, ◌^◌, ◌<◌, List, [], ◌∷◌, AreBytes, IsByte, arith}
use go_tor.Cell.Codec.{uint16_of, byte_of}

pub uint16_of-lt : (payload : List ℕ) → AreBytes payload → uint16_of payload < 2 ^ 16
uint16_of-lt [] h = omega arith
uint16_of-lt (a ∷ []) h = omega arith
uint16_of-lt (a ∷ b ∷ payload) h = omega (arith, h.0, h.1.0)

pub byte_of-IsByte : (payload : List ℕ) → AreBytes payload → IsByte (byte_of payload)
byte_of-IsByte [] h = omega arith
byte_of-IsByte (a ∷ payload) h = h.0
