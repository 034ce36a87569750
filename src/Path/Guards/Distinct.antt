-- ===== src/Path/Guards/Distinct.antt =====
-- pkg/path/guards.go: no call lets a fingerprint occur twice, or more than three guards in.
use go_tor.Prelude.{
  ℕ, suc, ◌≤◌, ◌<◌, ◌≡◌, refl, subst, ap, ◌∙◌, inl, inr, true, false, List, [], ◌∷◌, ◌++◌, leb,
  bytes_eq, bytes_eq→eq, bytes_eq_refl, if◌then◌else◌, Bool-cases, length, length-append, arith,
}
use go_tor.Directory.{Relay}
use go_tor.Path.Guards.{
  GuardEntry, valid_guards, is_fresh, is_known, touch, has_unconfirmed, remove_unconfirmed,
  new_entry, insert_guard, remove_first, max_guards,
}

-- No fingerprint occurs twice.
abbrev pub Apart : List GuardEntry → Type 0
Apart [] = Unit
Apart (g ∷ gs) = (is_known g.fingerprint gs ≡ false) × Apart gs

abbrev pub GuardsOk : List GuardEntry → Type 0
GuardsOk gs = (length gs ≤ max_guards) × Apart gs

pub touch-length :
    (now : ℕ) (fp : List ℕ) (gs : List GuardEntry) → length (touch now fp gs) ≡ length gs
unfolding touch
touch-length now fp [] = refl
touch-length now fp (g ∷ gs) = elim (Bool-cases (bytes_eq g.fingerprint fp)) [
  | inl e ↦ rw e refl
  | inr e ↦ rw e (ap suc (touch-length now fp gs))
]

is_known-touch :
    (now : ℕ) (fp a : List ℕ) (gs : List GuardEntry) → is_known a (touch now fp gs) ≡ is_known a gs
unfolding touch is_known
is_known-touch now fp a [] = refl
is_known-touch now fp a (g ∷ gs) = elim (Bool-cases (bytes_eq g.fingerprint fp)) [
  | inl e ↦ rw e refl
  | inr e ↦
      rw e (ap (λ t. if bytes_eq g.fingerprint a then true else t) (is_known-touch now fp a gs))
]

pub touch-Apart :
    (now : ℕ) (fp : List ℕ) (gs : List GuardEntry) → Apart gs → Apart (touch now fp gs)
unfolding touch
touch-Apart now fp [] h = tt
touch-Apart now fp (g ∷ gs) h = elim (Bool-cases (bytes_eq g.fingerprint fp)) [
  | inl e ↦ rw e h
  | inr e ↦ rw e (is_known-touch now fp g.fingerprint gs ∙ h.0, touch-Apart now fp gs h.1)
]

is_known-append :
    (a : List ℕ) (gs : List GuardEntry) (e : GuardEntry)
    → is_known a gs ≡ false
    → bytes_eq e.fingerprint a ≡ false
    → is_known a (gs ++ (e ∷ [])) ≡ false
unfolding is_known
is_known-append a [] e h n = rw n refl
is_known-append a (g ∷ gs) e h n = ground (arith, is_known-append a gs e)

bytes_eq_swap : (a b : List ℕ) → bytes_eq a b ≡ false → bytes_eq b a ≡ false
bytes_eq_swap a b h = elim (Bool-cases (bytes_eq b a)) [
  | inl e ↦ absurd (
      let p = bytes_eq→eq b a e in
      let q = subst (λ t. bytes_eq a t ≡ false) p h in let r = bytes_eq_refl a in cc)
  | inr e ↦ e
]

known_apart :
    (fp : List ℕ) (g : GuardEntry) (gs : List GuardEntry)
    → is_known fp (g ∷ gs) ≡ false
    → (bytes_eq g.fingerprint fp ≡ false) × (is_known fp gs ≡ false)
unfolding is_known
known_apart fp g gs h = ground arith

append-Apart :
    (gs : List GuardEntry) (e : GuardEntry)
    → Apart gs
    → is_known e.fingerprint gs ≡ false
    → Apart (gs ++ (e ∷ []))
unfolding is_known
append-Apart [] e h n = (refl, tt)
append-Apart (g ∷ gs) e h n =
    let (a, b) = known_apart e.fingerprint g gs n in
    (
      is_known-append g.fingerprint gs e h.0 (bytes_eq_swap g.fingerprint e.fingerprint a),
      append-Apart gs e h.1 b,
    )

remove_unconfirmed-length :
    (gs : List GuardEntry)
    → has_unconfirmed gs ≡ true
    → suc (length (remove_unconfirmed gs)) ≡ length gs
unfolding has_unconfirmed remove_unconfirmed
remove_unconfirmed-length [] h = cc
remove_unconfirmed-length (g ∷ gs) h = ground (arith, remove_unconfirmed-length gs)

is_known-remove_unconfirmed :
    (a : List ℕ) (gs : List GuardEntry)
    → is_known a gs ≡ false
    → is_known a (remove_unconfirmed gs) ≡ false
unfolding is_known remove_unconfirmed
is_known-remove_unconfirmed a [] h = refl
is_known-remove_unconfirmed a (g ∷ gs) h = ground (arith, is_known-remove_unconfirmed a gs)

remove_unconfirmed-Apart : (gs : List GuardEntry) → Apart gs → Apart (remove_unconfirmed gs)
unfolding remove_unconfirmed
remove_unconfirmed-Apart [] h = tt
remove_unconfirmed-Apart (g ∷ gs) h = elim (Bool-cases g.confirmed) [
  | inl e ↦ rw e (is_known-remove_unconfirmed g.fingerprint gs h.0, remove_unconfirmed-Apart gs h.1)
  | inr e ↦ rw e h.1
]

pub insert_guard-Ok :
    (now : ℕ) (r : Relay) (gs : List GuardEntry)
    → is_known r.fingerprint gs ≡ false
    → GuardsOk gs
    → GuardsOk (insert_guard now r gs)
unfolding insert_guard new_entry
insert_guard-Ok now r gs n h =
    let e = new_entry now r in
    elim (Bool-cases (leb max_guards (length gs))) [
      | inl c ↦ elim (Bool-cases (has_unconfirmed gs)) [
        | inl d ↦
            rw (c, d)
              (
                omega (
                  arith,
                  h.0,
                  remove_unconfirmed-length gs d,
                  length-append (remove_unconfirmed gs) (e ∷ []),
                ),
                append-Apart (remove_unconfirmed gs) e (remove_unconfirmed-Apart gs h.1)
                    (is_known-remove_unconfirmed r.fingerprint gs n),
              )
        | inr d ↦ rw (c, d) h
      ]
      | inr c ↦ rw c (
        let l : length gs < 3 = ground arith in omega (arith, l, length-append gs (e ∷ [])),
        append-Apart gs e h.1 n,
      )
    ]

is_known-remove_first :
    (fp a : List ℕ) (gs : List GuardEntry)
    → is_known a gs ≡ false
    → is_known a (remove_first fp gs) ≡ false
unfolding is_known remove_first
is_known-remove_first fp a [] h = refl
is_known-remove_first fp a (g ∷ gs) h = ground (arith, is_known-remove_first fp a gs)

pub length-remove_first :
    (fp : List ℕ) (gs : List GuardEntry) → length (remove_first fp gs) ≤ length gs
unfolding remove_first
length-remove_first fp [] = omega arith
length-remove_first fp (g ∷ gs) = ground (arith, length-remove_first fp gs)

pub remove_first-Apart :
    (fp : List ℕ) (gs : List GuardEntry) → Apart gs → Apart (remove_first fp gs)
unfolding remove_first
remove_first-Apart fp [] h = tt
remove_first-Apart fp (g ∷ gs) h = elim (Bool-cases (bytes_eq g.fingerprint fp)) [
  | inl e ↦ rw e h.1
  | inr e ↦ rw e (is_known-remove_first fp g.fingerprint gs h.0, remove_first-Apart fp gs h.1)
]

pub length-valid_guards :
    (now : ℕ) (gs : List GuardEntry) → length (valid_guards now gs) ≤ length gs
unfolding valid_guards
length-valid_guards now [] = omega arith
length-valid_guards now (g ∷ gs) = ground (arith, length-valid_guards now gs)

is_known-valid_guards :
    (now : ℕ) (a : List ℕ) (gs : List GuardEntry)
    → is_known a gs ≡ false
    → is_known a (valid_guards now gs) ≡ false
unfolding is_known valid_guards
is_known-valid_guards now a [] h = refl
is_known-valid_guards now a (g ∷ gs) h = ground (arith, is_known-valid_guards now a gs)

pub valid_guards-Apart : (now : ℕ) (gs : List GuardEntry) → Apart gs → Apart (valid_guards now gs)
unfolding valid_guards
valid_guards-Apart now [] h = tt
valid_guards-Apart now (g ∷ gs) h = elim (Bool-cases (is_fresh now g)) [
  | inl e ↦ rw e (is_known-valid_guards now g.fingerprint gs h.0, valid_guards-Apart now gs h.1)
  | inr e ↦ rw e (valid_guards-Apart now gs h.1)
]
