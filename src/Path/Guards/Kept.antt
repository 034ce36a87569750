-- ===== src/Path/Guards/Kept.antt =====
-- The guards over any calls: how many, each once, and no confirmed one forgotten.
use go_tor.Prelude.{
  ℕ, ◌≡◌, refl, sym, subst, inl, inr, Bool, true, false, List, [], ◌∷◌, ◌++◌, ltb, leb, bytes_eq,
  if◌then◌else◌, Bool-cases, length, All, arith,
}
use go_tor.Directory.{Relay}
use go_tor.Path.Guards.{
  GuardEntry, GuardState, valid_guards, is_known, touch, has_unconfirmed, remove_unconfirmed,
  insert_guard, add_guard, confirm_guard, remove_first, remove_guard, cleanup_expired, save,
  max_guards,
}
use go_tor.Path.Guards.Distinct.{
  GuardsOk, touch-length, touch-Apart, insert_guard-Ok, length-remove_first, remove_first-Apart,
  length-valid_guards, valid_guards-Apart,
}

-- The calls that change the list of guards.
pub data GuardCall : Type 0 where
  adds : ℕ → Relay → GuardCall
  confirms : ℕ → List ℕ → GuardCall
  removes : List ℕ → GuardCall
  cleans : ℕ → GuardCall
  saves : ℕ → GuardCall

unfoldable pub call : GuardCall → GuardState → GuardState
call (adds now r) s = add_guard now r s
call (confirms now fp) s = (confirm_guard now fp s).0
call (removes fp) s = (remove_guard fp s).0
call (cleans now) s = cleanup_expired now s
call (saves now) s = save now s

unfoldable pub calls : List GuardCall → GuardState → GuardState
unfolding call
calls [] s = s
calls (c ∷ cs) s = calls cs (call c s)

call_confirms :
    (now : ℕ) (fp : List ℕ) (s : GuardState)
    → (call (confirms now fp) s).guards
      ≡ (if is_known fp s.guards then touch now fp s.guards else s.guards)
unfolding call confirm_guard
call_confirms now fp s = elim (Bool-cases (is_known fp s.guards)) [
  | inl e ↦ rw (call, confirm_guard, e) refl
  | inr e ↦ rw (call, confirm_guard, e) refl
]

call_removes :
    (fp : List ℕ) (s : GuardState)
    → (call (removes fp) s).guards
      ≡ (if is_known fp s.guards then remove_first fp s.guards else s.guards)
unfolding call remove_guard
call_removes fp s = elim (Bool-cases (is_known fp s.guards)) [
  | inl e ↦ rw (call, remove_guard, e) refl
  | inr e ↦ rw (call, remove_guard, e) refl
]

call-Ok : (c : GuardCall) (s : GuardState) → GuardsOk s.guards → GuardsOk (call c s).guards
unfolding call add_guard confirm_guard remove_guard cleanup_expired save
call-Ok (adds now r) s h = elim (Bool-cases (is_known r.fingerprint s.guards)) [
  | inl e ↦
      rw e (
        rw (touch-length now r.fingerprint s.guards) h.0,
        touch-Apart now r.fingerprint s.guards h.1,
      )
  | inr e ↦ rw e (insert_guard-Ok now r s.guards e h)
]
call-Ok (confirms now fp) s h =
    subst GuardsOk (sym (call_confirms now fp s)) (elim (Bool-cases (is_known fp s.guards)) [
      | inl e ↦ rw e (rw (touch-length now fp s.guards) h.0, touch-Apart now fp s.guards h.1)
      | inr e ↦ rw e h
    ])
call-Ok (removes fp) s h =
    subst GuardsOk (sym (call_removes fp s)) (elim (Bool-cases (is_known fp s.guards)) [
      | inl e ↦
          rw e (
            omega (arith, h.0, length-remove_first fp s.guards),
            remove_first-Apart fp s.guards h.1,
          )
      | inr e ↦ rw e h
    ])
call-Ok (cleans now) s h =
    elim (Bool-cases (ltb (length (valid_guards now s.guards)) (length s.guards))) [
      | inl e ↦ rw e (
        omega (arith, h.0, length-valid_guards now s.guards),
        valid_guards-Apart now s.guards h.1,
      )
      | inr e ↦ rw e h
    ]
call-Ok (saves now) s h = h

calls-Ok : (cs : List GuardCall) (s : GuardState) → GuardsOk s.guards → GuardsOk (calls cs s).guards
unfolding calls
calls-Ok [] s h = h
calls-Ok (c ∷ cs) s h = calls-Ok cs (call c s) (call-Ok c s h)

-- Some entry with the fingerprint is confirmed.
unfoldable pub is_confirmed : List ℕ → List GuardEntry → Bool
is_confirmed fp [] = false
is_confirmed fp (g ∷ gs) =
    let rest = is_confirmed fp gs in
    if bytes_eq g.fingerprint fp then if g.confirmed then true else rest else rest

-- A call that neither removes a guard by name nor clears the expired ones.
abbrev pub keeps : GuardCall → Bool
keeps (removes fp) = false
keeps (cleans now) = false
keeps _ = true

is_confirmed-touch :
    (now : ℕ) (fp a : List ℕ) (gs : List GuardEntry)
    → is_confirmed a gs ≡ true
    → is_confirmed a (touch now fp gs) ≡ true
unfolding is_confirmed touch
is_confirmed-touch now fp a [] h = cc
is_confirmed-touch now fp a (g ∷ gs) h = ground (arith, is_confirmed-touch now fp a gs)

is_confirmed-remove_unconfirmed :
    (a : List ℕ) (gs : List GuardEntry)
    → is_confirmed a gs ≡ true
    → is_confirmed a (remove_unconfirmed gs) ≡ true
unfolding is_confirmed remove_unconfirmed
is_confirmed-remove_unconfirmed a [] h = cc
is_confirmed-remove_unconfirmed a (g ∷ gs) h = ground (arith, is_confirmed-remove_unconfirmed a gs)

is_confirmed-append :
    (a : List ℕ) (gs hs : List GuardEntry)
    → is_confirmed a gs ≡ true
    → is_confirmed a (gs ++ hs) ≡ true
unfolding is_confirmed
is_confirmed-append a [] hs h = cc
is_confirmed-append a (g ∷ gs) hs h = ground (arith, is_confirmed-append a gs hs)

is_confirmed-insert_guard :
    (now : ℕ) (r : Relay) (a : List ℕ) (gs : List GuardEntry)
    → is_confirmed a gs ≡ true
    → is_confirmed a (insert_guard now r gs) ≡ true
unfolding insert_guard
is_confirmed-insert_guard now r a gs h = elim (Bool-cases (leb max_guards (length gs))) [
  | inl c ↦ elim (Bool-cases (has_unconfirmed gs)) [
    | inl d ↦
        rw (c, d)
          (is_confirmed-append a (remove_unconfirmed gs) _ (is_confirmed-remove_unconfirmed a gs h))
    | inr d ↦ rw (c, d) h
  ]
  | inr c ↦ rw c (is_confirmed-append a gs _ h)
]

call_confirmed :
    (c : GuardCall) (s : GuardState) (a : List ℕ)
    → keeps c ≡ true
    → is_confirmed a s.guards ≡ true
    → is_confirmed a (call c s).guards ≡ true
unfolding call add_guard confirm_guard save
call_confirmed (adds now r) s a k h = elim (Bool-cases (is_known r.fingerprint s.guards)) [
  | inl e ↦ rw e (is_confirmed-touch now r.fingerprint a s.guards h)
  | inr e ↦ rw e (is_confirmed-insert_guard now r a s.guards h)
]
call_confirmed (confirms now fp) s a k h =
    subst (λ gs. is_confirmed a gs ≡ true) (sym (call_confirms now fp s))
      (elim (Bool-cases (is_known fp s.guards)) [
        | inl e ↦ rw e (is_confirmed-touch now fp a s.guards h)
        | inr e ↦ rw e h
      ])
call_confirmed (removes fp) s a k h = absurd (cc)
call_confirmed (cleans now) s a k h = absurd (cc)
call_confirmed (saves now) s a k h = h

calls_confirmed :
    (cs : List GuardCall) (s : GuardState) (a : List ℕ)
    → All (λ c. keeps c ≡ true) cs
    → is_confirmed a s.guards ≡ true
    → is_confirmed a (calls cs s).guards ≡ true
unfolding calls
calls_confirmed [] s a k h = h
calls_confirmed (c ∷ cs) s a k h = calls_confirmed cs (call c s) a k.1 (call_confirmed c s a k.0 h)

-- From a list of at most three guards with different fingerprints, every sequence of calls keeps it
-- so; and while no call removes guards by name or clears the expired ones, a guard that is confirmed
-- stays confirmed, whichever relays are added.
pub guards_kept :
    (cs : List GuardCall) (s : GuardState)
    → GuardsOk s.guards
    → GuardsOk (calls cs s).guards
      × ((a : List ℕ)
          → All (λ c. keeps c ≡ true) cs
          → is_confirmed a s.guards ≡ true
          → is_confirmed a (calls cs s).guards ≡ true)
guards_kept cs s h = (calls-Ok cs s h, calls_confirmed cs s)
