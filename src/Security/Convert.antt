-- ===== src/Security/Convert.antt =====
-- pkg/security/conversion.go, and the private twins in pkg/security/helpers.go.
-- A conversion `uintN(val)` is written out as the wrap that Go makes.
pub mod Exact
mod Tests
use go_tor.Prelude.{
  ℕ, suc, ◌+◌, ◌-◌, ◌%◌, ◌^◌, Bool, true, false, List, [], ◌∷◌, ◌&&◌, not, Result, ok, err,
  refuse_if, ◌>>=◌, ◌>>◌, length, bytes_eq, ltb, leb, ◌==◌, Option, none, some, if◌then◌else◌, map,
}
use go_tor.Security.Int.{ℤ, pos, negsuc, is_negative, exceeds, max_uint16, max_uint32, max_int64}

pub data RangeError : Type 0 where
  negative too_large : RangeError

-- `uintW(val)` of a signed value: the residue modulo 2 ^ w.
abbrev pub wrap : ℕ → ℤ → ℕ
wrap w (pos n) = n % 2 ^ w
wrap w (negsuc n) = (2 ^ w - 1 - n % 2 ^ w) % 2 ^ w

-- The argument is `t.Unix()`. The second test repeats the first, as in the source.
unfoldable pub safe_unix_to_uint64 : ℤ → Result RangeError ℕ
safe_unix_to_uint64 unix = do
  refuse_if (is_negative unix) negative
  refuse_if (is_negative unix) too_large
  ok (wrap 64 unix)

unfoldable pub safe_unix_to_uint32 : ℤ → Result RangeError ℕ
safe_unix_to_uint32 unix = do
  refuse_if (is_negative unix) negative
  refuse_if (exceeds unix max_uint32) too_large
  ok (wrap 32 unix)

unfoldable pub safe_int_to_uint64 : ℤ → Result RangeError ℕ
safe_int_to_uint64 val = do refuse_if (is_negative val) negative; ok (wrap 64 val)

unfoldable pub safe_int_to_uint16 : ℤ → Result RangeError ℕ
safe_int_to_uint16 val = do
  refuse_if (is_negative val) negative
  refuse_if (exceeds val max_uint16) too_large
  ok (wrap 16 val)

unfoldable pub safe_int64_to_uint64 : ℤ → Result RangeError ℕ
safe_int64_to_uint64 val = do refuse_if (is_negative val) negative; ok (wrap 64 val)

-- `int64(val)` of a value below 2 ^ 63 is the value.
unfoldable pub safe_uint64_to_int64 : ℕ → Result RangeError ℤ
safe_uint64_to_int64 val = do
  refuse_if (ltb max_int64 val) too_large
  ok (if ltb val (2 ^ 63) then pos val else negsuc (2 ^ 64 - 1 - val))

unfoldable pub safe_int_to_uint32 : ℤ → Result RangeError ℕ
safe_int_to_uint32 val = do
  refuse_if (is_negative val) negative
  refuse_if (exceeds val max_uint32) too_large
  ok (wrap 32 val)

unfoldable pub safe_len_to_uint16 : List ℕ → Result RangeError ℕ
unfolding safe_int_to_uint16
safe_len_to_uint16 bytes = safe_int_to_uint16 (pos (length bytes))

-- crypto/subtle's comparison is 1 exactly on equal contents.
unfoldable pub constant_time_compare : List ℕ → List ℕ → Bool
unfolding bytes_eq
constant_time_compare a b = bytes_eq a b

-- The bytes of the slice after the call.
unfoldable pub secure_zero_memory : List ℕ → List ℕ
secure_zero_memory bytes = map (λ _. 0) bytes

pub data CellInputError : Type 0 where
  nil_input too_short too_long : CellInputError

-- `none` is a nil slice.
unfoldable pub validate_cell_input : Option (List ℕ) → Result CellInputError (Unit {0})
validate_cell_input none = err nil_input
validate_cell_input (some bytes) = do
  refuse_if (ltb (length bytes) 5) too_short
  refuse_if (ltb 65535 (length bytes)) too_long
  ok tt
