-- ===== src/Security/Convert/Exact.antt =====
-- The conversions keep the value, and refuse exactly what does not fit.
use go_tor.Prelude.{
  ℕ, ◌^◌, ◌<◌, ◌≡◌, refl, List, [], ◌∷◌, Result, ok, err, length, arith, ltb, ap, ◌↔◌, true, false,
  ◌>>=◌, replicate, bytes_eq→eq, bytes_eq_refl, if◌then◌else◌,
}
use go_tor.Security.Int.{ℤ, pos, negsuc, exceeds, max_uint16, max_uint32, max_int64}
use go_tor.Security.Convert.{
  RangeError, negative, too_large, safe_unix_to_uint64, safe_unix_to_uint32, safe_int_to_uint64,
  safe_int_to_uint16, safe_int64_to_uint64, safe_uint64_to_int64, safe_int_to_uint32,
  safe_len_to_uint16, constant_time_compare, secure_zero_memory,
}

-- What a conversion to an unsigned type with the given maximum promises: the value itself, or the
-- error that says on which side it lies outside.
abbrev pub exact : ℕ → ℤ → Result RangeError ℕ
exact limit (pos n) = if ltb limit n then err too_large else ok n
exact limit (negsuc n) = err negative

-- Each checked conversion to uint16 or uint32 returns the value unchanged when it is in range, and
-- otherwise the error for the side on which it lies outside.
pub safe_conversions_exact :
    (v : ℤ)
    → (safe_int_to_uint16 v ≡ exact max_uint16 v)
      × (safe_int_to_uint32 v ≡ exact max_uint32 v)
      × (safe_unix_to_uint32 v ≡ exact max_uint32 v)
unfolding safe_int_to_uint16 safe_int_to_uint32 safe_unix_to_uint32
safe_conversions_exact (pos n) = (ground arith, ground arith, ground arith)
safe_conversions_exact (negsuc n) = (refl, refl, refl)

-- For a value of Go's int64 range the three conversions to uint64 return the value unchanged when
-- it is not negative, and the error for a negative value otherwise.
pub to_uint64_exact :
    (v : ℤ)
    → exceeds v max_int64 ≡ false
    → (safe_int_to_uint64 v ≡ exact max_int64 v)
      × (safe_int64_to_uint64 v ≡ exact max_int64 v)
      × (safe_unix_to_uint64 v ≡ exact max_int64 v)
unfolding safe_int_to_uint64 safe_int64_to_uint64 safe_unix_to_uint64
to_uint64_exact (pos n) h = (ground arith, ground arith, ground arith)
to_uint64_exact (negsuc n) h = (refl, refl, refl)

-- Going from a uint64 to int64 and back gives the value where int64 can hold it, and the range
-- error where it cannot.
pub uint64_roundtrip :
    (n : ℕ)
    → n < 2 ^ 64
    → (safe_uint64_to_int64 n >>= safe_int64_to_uint64) ≡ exact max_int64 (pos n)
unfolding safe_uint64_to_int64 safe_int64_to_uint64
uint64_roundtrip n h = ground arith

pub safe_len_to_uint16_lem :
    (bytes : List ℕ) → safe_len_to_uint16 bytes ≡ exact max_uint16 (pos (length bytes))
unfolding safe_len_to_uint16
safe_len_to_uint16_lem bytes = ground arith

-- The comparison answers true exactly on equal contents.
pub constant_time_compare_iff : (a b : List ℕ) → (constant_time_compare a b ≡ true) ↔ (a ≡ b)
unfolding constant_time_compare
constant_time_compare_iff a b = (bytes_eq→eq a b, λ e. rw e (bytes_eq_refl b))

-- Zeroing keeps the length and leaves no byte but 0.
pub secure_zero_memory_lem :
    (bytes : List ℕ) → secure_zero_memory bytes ≡ replicate (length bytes) 0
unfolding secure_zero_memory
secure_zero_memory_lem [] = refl
secure_zero_memory_lem (x ∷ xs) = ap (λ t. 0 ∷ t) (secure_zero_memory_lem xs)
