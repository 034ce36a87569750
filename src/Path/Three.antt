-- ===== src/Path/Three.antt =====
-- pkg/path/path.go: a choice among three relays of different fingerprints finds one.
use go_tor.Prelude.{
  ℕ, zero, suc, ◌<◌, ◌≡◌, ◌≢◌, refl, sym, subst, ap, ◌∙◌, inl, inr, ◌⊎◌, false, List, [], ◌∷◌,
  Option, none, some, Result, ok, bytes_eq, bytes_eq→eq, Bool-cases, length, get_elem?, arith,
}
use go_tor.Directory.{Relay}
use go_tor.Path.{PathError, pick, others, or_any}

-- The source of randomness yields an index below the bound.
abbrev pub InRange : (ℕ → Option ℕ) → Type 0
InRange random = (n : ℕ) → 0 < n → (i : ℕ) × (random n ≡ some i) × (i < n)

abbrev pub IsIn : Relay → List Relay → Type 0
IsIn a rs = (i : ℕ) × (get_elem? rs i ≡ some a)

abbrev pub Succeeds : {E A : Type 0} → Result E A → Type 0
Succeeds {A = A} m = (a : A) × (m ≡ ok a)

get_elem_below : (rs : List Relay) (i : ℕ) → i < length rs → (q : Relay) × (get_elem? rs i ≡ some q)
get_elem_below [] i h = absurd (omega arith)
get_elem_below (r ∷ rs) zero h = (r, refl)
get_elem_below (r ∷ rs) (suc i) h = get_elem_below rs i (omega arith)

pick_found :
    (random : ℕ → Option ℕ) (e : PathError) (r : Relay) (rs : List Relay)
    → InRange random
    → Succeeds (pick random e (r ∷ rs))
unfolding pick
pick_found random e r rs h =
    let (i, f, l) = h (length (r ∷ rs)) (omega arith) in
    let (q, g) = get_elem_below (r ∷ rs) i l in (q, rw (f, g) refl)

pub pick_in :
    (random : ℕ → Option ℕ) (e : PathError) (rs : List Relay) (a : Relay)
    → InRange random
    → IsIn a rs
    → Succeeds (pick random e rs)
pick_in random e [] a h (i, f) = absurd (cc)
pick_in random e (r ∷ rs) a h m = pick_found random e r rs h

pub pick-or_any :
    (random : ℕ → Option ℕ) (e : PathError) (xs ys : List Relay) (a : Relay)
    → InRange random
    → IsIn a ys
    → Succeeds (pick random e (or_any xs ys))
pick-or_any random e [] ys a h m = pick_in random e ys a h m
pick-or_any random e (x ∷ xs) ys a h m = pick_found random e x xs h

others-IsIn :
    (fp : List ℕ) (rs : List Relay) (a : Relay) (i : ℕ)
    → get_elem? rs i ≡ some a
    → bytes_eq a.fingerprint fp ≡ false
    → IsIn a (others fp rs)
unfolding others
others-IsIn fp [] a i h n = absurd (cc)
others-IsIn fp (r ∷ rs) a zero h n =
    let f : r ≡ a = ap (λ o. elim o [ none ↦ r | some x ↦ x ]) h in
    let g = subst (λ q. bytes_eq q.fingerprint fp ≡ false) (sym f) n in rw g (0, ap some f)
others-IsIn fp (r ∷ rs) a (suc i) h n = elim (Bool-cases (bytes_eq r.fingerprint fp)) [
  | inl e ↦ rw e (others-IsIn fp rs a i h n)
  | inr e ↦ let m = others-IsIn fp rs a i h n in rw e (suc m.0, m.1)
]

-- Three relays of three fingerprints, each of a kind.
pub record HasThree (Is : Relay → Type 0) : Type 0 where
  pub a : Relay
  pub b : Relay
  pub c : Relay
  pub a_in : Is a
  pub b_in : Is b
  pub c_in : Is c
  pub a_b : a.fingerprint ≢ b.fingerprint
  pub a_c : a.fingerprint ≢ c.fingerprint
  pub b_c : b.fingerprint ≢ c.fingerprint

abbrev pub ThreeOf : List Relay → Type 0
ThreeOf rs = HasThree (λ r. IsIn r rs)

-- Two fingerprints of the three, or more, are not the given one.
pub one_but : (rs : List Relay) (fp : List ℕ) → ThreeOf rs → (r : Relay) × IsIn r (others fp rs)
one_but rs fp t = elim (Bool-cases (bytes_eq t.a.fingerprint fp)) [
  | inl e ↦ elim (Bool-cases (bytes_eq t.b.fingerprint fp)) [
    | inl f ↦ absurd (t.a_b (bytes_eq→eq _ _ e ∙ sym (bytes_eq→eq _ _ f)))
    | inr f ↦ (t.b, others-IsIn fp rs t.b t.b_in.0 t.b_in.1 f)
  ]
  | inr e ↦ (t.a, others-IsIn fp rs t.a t.a_in.0 t.a_in.1 e)
]

-- One of the three is neither of the two given ones.
abbrev Misses : List ℕ → List ℕ → List ℕ → Type 0
Misses fp g x = (bytes_eq fp g ≡ false) × (bytes_eq fp x ≡ false)

hit_or_miss : (fp g x : List ℕ) → Misses fp g x ⊎ ((fp ≡ g) ⊎ (fp ≡ x))
hit_or_miss fp g x = elim (Bool-cases (bytes_eq fp g)) [
  | inl e ↦ inr (inl (bytes_eq→eq fp g e))
  | inr e ↦ elim (Bool-cases (bytes_eq fp x)) [
    | inl f ↦ inr (inr (bytes_eq→eq fp x f))
    | inr f ↦ inl (e, f)
  ]
]

third-Misses :
    (a b c g x : List ℕ)
    → a ≢ b
    → a ≢ c
    → b ≢ c
    → (a ≡ g) ⊎ (a ≡ x)
    → (b ≡ g) ⊎ (b ≡ x)
    → Misses c g x
third-Misses a b c g x n m k h l = elim (hit_or_miss c g x) [
  | inl e ↦ e
  | inr (inl e) ↦ elim h [
    | inl f ↦ absurd (m (f ∙ sym e))
    | inr f ↦ elim l [ inl p ↦ absurd (k (p ∙ sym e)) | inr p ↦ absurd (n (f ∙ sym p)) ]
  ]
  | inr (inr e) ↦ elim h [
    | inl f ↦ elim l [ inl p ↦ absurd (n (f ∙ sym p)) | inr p ↦ absurd (k (p ∙ sym e)) ]
    | inr f ↦ absurd (m (f ∙ sym e))
  ]
]

both_miss :
    (rs : List Relay) (g x : List ℕ) (a : Relay)
    → IsIn a rs
    → Misses a.fingerprint g x
    → (r : Relay) × IsIn r (others x (others g rs))
both_miss rs g x a i m =
    let j = others-IsIn g rs a i.0 i.1 m.0 in (a, others-IsIn x (others g rs) a j.0 j.1 m.1)

pub one_but_two :
    (rs : List Relay) (g x : List ℕ) → ThreeOf rs → (r : Relay) × IsIn r (others x (others g rs))
one_but_two rs g x t = elim (hit_or_miss t.a.fingerprint g x) [
  | inl m ↦ both_miss rs g x t.a t.a_in m
  | inr h ↦ elim (hit_or_miss t.b.fingerprint g x) [
    | inl m ↦ both_miss rs g x t.b t.b_in m
    | inr l ↦
        both_miss rs g x t.c t.c_in
          (third-Misses t.a.fingerprint t.b.fingerprint t.c.fingerprint g x t.a_b t.a_c t.b_c h l)
  ]
]
