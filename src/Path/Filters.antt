-- ===== src/Path/Filters.antt =====
-- pkg/path/path.go: what holds of every relay that the filters and the random choice return.
use go_tor.Prelude.{
  ℕ, suc, zero, ◌≡◌, subst, ap, inl, inr, true, false, not, ◌&&◌, ◌||◌, List, [], ◌∷◌, Option, none,
  some, Result, ok, err, bytes_eq, Bool-cases, length, get_elem?, All, arith,
}
use go_tor.Directory.{Relay, is_guard, is_exit, is_stable, is_running, is_valid}
use go_tor.Path.Guards.{GuardEntry}
use go_tor.Path.{
  PathError, usable, stable_guards, find_relay, find_persistent, pick, pick_at, picked, or_else,
  others, exits, or_any,
}

-- A predicate of relays, on the relay that a call may return.
OfOk : (Relay → Type 0) → Result PathError Relay → Type 0
OfOk P (ok r) = P r
OfOk P (err e) = Unit

get_elem-All :
    (P : Relay → Type 0) (rs : List Relay) (i : ℕ) (q : Relay)
    → All P rs
    → get_elem? rs i ≡ some q
    → P q
get_elem-All P [] i q h e = absurd (cc)
get_elem-All P (r ∷ rs) zero q h e =
    let f : r ≡ q = ap (λ o. elim o [ none ↦ r | some x ↦ x ]) e in subst P f h.0
get_elem-All P (r ∷ rs) (suc i) q h e = get_elem-All P rs i q h.1 e

picked-some : (o : Option Relay) (q : Relay) → picked o ≡ ok q → o ≡ some q
picked-some none q h = absurd (cc)
picked-some (some r) q h = ground arith

pick_at-get :
    (i : Option ℕ) (rs : List Relay) (q : Relay)
    → pick_at i rs ≡ ok q
    → (k : ℕ) × (get_elem? rs k ≡ some q)
pick_at-get none rs q h = absurd (cc)
pick_at-get (some k) rs q h = (k, picked-some (get_elem? rs k) q h)

pub pick-get :
    (random : ℕ → Option ℕ) (e : PathError) (rs : List Relay) (q : Relay)
    → pick random e rs ≡ ok q
    → (k : ℕ) × (get_elem? rs k ≡ some q)
unfolding pick
pick-get random e [] q h = absurd (cc)
pick-get random e (r ∷ rs) q h = pick_at-get (random (length (r ∷ rs))) (r ∷ rs) q h

pub pick-All :
    (P : Relay → Type 0) (random : ℕ → Option ℕ) (e : PathError) (rs : List Relay) (q : Relay)
    → All P rs
    → pick random e rs ≡ ok q
    → P q
pick-All P random e rs q h k = let (i, f) = pick-get random e rs q k in get_elem-All P rs i q h f

pub others-All :
    (P : Relay → Type 0) (fp : List ℕ) (rs : List Relay)
    → All P rs
    → All (λ r. P r × (bytes_eq r.fingerprint fp ≡ false)) (others fp rs)
unfolding others
others-All P fp [] h = tt
others-All P fp (r ∷ rs) h = elim (Bool-cases (bytes_eq r.fingerprint fp)) [
  | inl e ↦ rw e (others-All P fp rs h.1)
  | inr e ↦ rw e ((h.0, e), others-All P fp rs h.1)
]

pub exits-All :
    (P : Relay → Type 0) (fp : List ℕ) (rs : List Relay)
    → All P rs
    → All (λ r. P r × (bytes_eq r.fingerprint fp ≡ false)) (exits fp rs)
unfolding exits
exits-All P fp [] h = tt
exits-All P fp (r ∷ rs) h = elim (Bool-cases (is_exit r && not (bytes_eq r.fingerprint fp))) [
  | inl e ↦
      let n : bytes_eq r.fingerprint fp ≡ false = ground arith in
      rw e ((h.0, n), exits-All P fp rs h.1)
  | inr e ↦ rw e (exits-All P fp rs h.1)
]

-- Every relay of the list that is an exit.
exits-AllExits : (fp : List ℕ) (rs : List Relay) → All (λ r. is_exit r ≡ true) (exits fp rs)
unfolding exits
exits-AllExits fp [] = tt
exits-AllExits fp (r ∷ rs) = elim (Bool-cases (is_exit r && not (bytes_eq r.fingerprint fp))) [
  | inl e ↦ let x : is_exit r ≡ true = ground arith in rw e (x, exits-AllExits fp rs)
  | inr e ↦ rw e (exits-AllExits fp rs)
]

pub or_any-All :
    (P : Relay → Type 0) (xs ys : List Relay) → All P xs → All P ys → All P (or_any xs ys)
or_any-All P [] ys h k = k
or_any-All P (x ∷ xs) ys h k = h

pub usable-All :
    (P : Relay → Type 0) (rs : List Relay)
    → All P rs
    → All (λ r. P r × (is_running r ≡ true) × (is_valid r ≡ true)) (usable rs)
unfolding usable
usable-All P [] h = tt
usable-All P (r ∷ rs) h = elim (Bool-cases (not (is_running r) || not (is_valid r))) [
  | inl e ↦ rw e (usable-All P rs h.1)
  | inr e ↦
      let x : is_running r ≡ true = ground arith in
      let y : is_valid r ≡ true = ground arith in rw e ((h.0, x, y), usable-All P rs h.1)
]

pub stable_guards-All :
    (P : Relay → Type 0) (rs : List Relay)
    → All P rs
    → All (λ r. P r × (is_guard r ≡ true) × (is_stable r ≡ true)) (stable_guards rs)
unfolding stable_guards
stable_guards-All P [] h = tt
stable_guards-All P (r ∷ rs) h = elim (Bool-cases (is_guard r && is_stable r)) [
  | inl e ↦
      let x : is_guard r ≡ true = ground arith in
      let y : is_stable r ≡ true = ground arith in rw e ((h.0, x, y), stable_guards-All P rs h.1)
  | inr e ↦ rw e (stable_guards-All P rs h.1)
]

find_relay-All :
    (P : Relay → Type 0) (fp : List ℕ) (rs : List Relay) (q : Relay)
    → All P rs
    → find_relay fp rs ≡ some q
    → P q
unfolding find_relay
find_relay-All P fp [] q h e = absurd (cc)
find_relay-All P fp (r ∷ rs) q h e = elim (Bool-cases (bytes_eq r.fingerprint fp)) [
  | inl c ↦ let f : r ≡ q = ground arith in subst P f h.0
  | inr c ↦ find_relay-All P fp rs q h.1 (ground arith)
]

or_else-All :
    (P : Relay → Type 0) (a b : Option Relay) (q : Relay)
    → ((r : Relay) → a ≡ some r → P r)
    → ((r : Relay) → b ≡ some r → P r)
    → or_else a b ≡ some q
    → P q
or_else-All P none b q f g e = g q e
or_else-All P (some r) b q f g e = f q e

pub find_persistent-All :
    (P : Relay → Type 0) (gs : List GuardEntry) (rs : List Relay) (q : Relay)
    → All P rs
    → find_persistent gs rs ≡ some q
    → P q
unfolding find_persistent
find_persistent-All P [] rs q h e = absurd (cc)
find_persistent-All P (g ∷ gs) rs q h e =
    or_else-All P (find_relay g.fingerprint rs) (find_persistent gs rs) q
      (λ r. find_relay-All P g.fingerprint rs r h) (λ r. find_persistent-All P gs rs r h) e
