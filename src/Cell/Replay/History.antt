-- ===== src/Cell/Replay/History.antt =====
-- Histories of accepted digests, as the two maps of a direction hold them, and what a clean-up keeps.
use go_tor.Prelude.{
  ℕ, zero, suc, ◌-◌, ◌≤◌, ◌≡◌, refl, sym, ◌∙◌, ap, Bool, true, false, List, [], ◌∷◌, none, some,
  ltb, if◌then◌else◌, length, take, take_all, take-nil, ◌⊎◌, arith, Bool-cases, inl, inr, bytes_eq,
  ◌||◌,
}
use Prim.Native.Nat.{min}
use go_tor.Prelude.Subset.{elem}
use go_tor.Cell.Replay.Table.{Digest, lookup, keep, keep_set}

-- A history with the sequence number of each digest.
abbrev pub tagged : List Digest → List (Digest × ℕ)
tagged [] = []
tagged (d ∷ h) = (d, length h) ∷ tagged h

abbrev pub countdown : ℕ → List ℕ
countdown zero = []
countdown (suc n) = n ∷ countdown n

-- Is a digest among these?
unfoldable pub remembered : Digest → List Digest → Bool
remembered d [] = false
remembered d (e ∷ h) = bytes_eq d e || remembered d h

pub keep_none : (low k : ℕ) (h : List Digest) → length h ≤ low → keep low (take k (tagged h)) ≡ []
unfolding keep
keep_none low zero h p = refl
keep_none low (suc k) [] p = refl
keep_none low (suc k) (d ∷ h) p = ground (arith, keep_none low k h)

pub keep-tagged :
    (low k : ℕ) (h : List Digest)
    → keep low (take k (tagged h)) ≡ take (min k (length h - low)) (tagged h)
unfolding keep
keep-tagged low zero h = let e : min 0 (length h - low) ≡ 0 = omega arith in rw e
keep-tagged low (suc k) [] = rw take-nil
keep-tagged low (suc k) (d ∷ h) = elim (Bool-cases (ltb (length h) low)) [
  | inl small ↦
      let e : min (suc k) (suc (length h) - low) ≡ 0 = ground arith in
      rw (small, e) (keep_none low k h (ground arith))
  | inr big ↦
      let e : min (suc k) (suc (length h) - low) ≡ suc (min k (length h - low)) = ground arith in
      rw (big, e) (ap (λ t. (d, length h) ∷ t) (keep-tagged low k h))
]

pub keep_set_none : (low k n : ℕ) → n ≤ low → keep_set low (take k (countdown n)) ≡ []
unfolding keep_set
keep_set_none low zero n p = refl
keep_set_none low (suc k) zero p = refl
keep_set_none low (suc k) (suc n) p = ground (arith, keep_set_none low k n)

pub keep_set-countdown :
    (low k n : ℕ) → keep_set low (take k (countdown n)) ≡ take (min k (n - low)) (countdown n)
unfolding keep_set
keep_set-countdown low zero n = let e : min 0 (n - low) ≡ 0 = omega arith in rw e
keep_set-countdown low (suc k) zero = rw take-nil
keep_set-countdown low (suc k) (suc n) = elim (Bool-cases (ltb n low)) [
  | inl small ↦
      let e : min (suc k) (suc n - low) ≡ 0 = ground arith in
      rw (small, e) (keep_set_none low k n (ground arith))
  | inr big ↦
      let e : min (suc k) (suc n - low) ≡ suc (min k (n - low)) = ground arith in
      rw (big, e) (ap (λ t. n ∷ t) (keep_set-countdown low k n))
]

-- The number below which `cleanup_window` deletes.
abbrev pub low_of : ℕ → ℕ → ℕ
low_of size n = if ltb size n then n - size else 0

-- Of `size + 1` remembered entries, at most `size` survive.
pub take_survivors :
    {A : Type 0} (size : ℕ) (xs : List A)
    → take (min (suc size) (length xs - low_of size (length xs))) xs ≡ take size xs
take_survivors size xs = elim (Bool-cases (ltb size (length xs))) [
  | inl many ↦
      let e : min (suc size) (length xs - low_of size (length xs)) ≡ size = ground arith in rw e
  | inr few ↦
      let e : min (suc size) (length xs - low_of size (length xs)) ≡ length xs = ground arith in
      rw e (take_all (length xs) xs (omega arith) ∙ sym (take_all size xs (ground arith)))
]

pub length-tagged : (h : List Digest) → length (tagged h) ≡ length h
length-tagged [] = refl
length-tagged (d ∷ h) = ap suc (length-tagged h)

pub length-countdown : (n : ℕ) → length (countdown n) ≡ n
length-countdown zero = refl
length-countdown (suc n) = ap suc (length-countdown n)

pub keep_survivors :
    (size : ℕ) (h : List Digest)
    → keep (low_of size (length h)) (take (suc size) (tagged h)) ≡ take size (tagged h)
keep_survivors size h =
    keep-tagged (low_of size (length h)) (suc size) h
    ∙ rw (length-tagged h) at (take_survivors size (tagged h))

pub keep_set_survivors :
    (size n : ℕ)
    → keep_set (low_of size n) (take (suc size) (countdown n)) ≡ take size (countdown n)
keep_set_survivors size n =
    keep_set-countdown (low_of size n) (suc size) n
    ∙ rw (length-countdown n) at (take_survivors size (countdown n))

pub lookup-tagged :
    (d : Digest) (k : ℕ) (h : List Digest)
    → ((remembered d (take k h) ≡ false) × (lookup d (take k (tagged h)) ≡ none))
      ⊎ ((v : ℕ) × (remembered d (take k h) ≡ true) × (lookup d (take k (tagged h)) ≡ some v))
unfolding remembered lookup
lookup-tagged d zero h = inl (refl, refl)
lookup-tagged d (suc k) [] = inl (refl, refl)
lookup-tagged d (suc k) (e ∷ h) = elim (Bool-cases (bytes_eq d e)) [
  | inl same ↦ inr (length h, rw same, rw same)
  | inr other ↦ rw other (lookup-tagged d k h)
]

pub elem-countdown : (m k n : ℕ) → n ≤ m → elem m (take k (countdown n)) ≡ false
unfolding elem
elem-countdown m zero n h = refl
elem-countdown m (suc k) zero h = refl
elem-countdown m (suc k) (suc n) h = ground (arith, elem-countdown m k n)
