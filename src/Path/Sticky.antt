-- ===== src/Path/Sticky.antt =====
-- The guard that was picked is picked again.
use go_tor.Prelude.{
  ℕ, zero, suc, ◌+◌, ◌≤◌, ◌<◌, ◌≡◌, refl, sym, subst, ap, ◌∙◌, inl, inr, true, false, ◌||◌, List,
  [], ◌∷◌, ◌++◌, Option, none, some, Result, ok, err, ltb, leb, bytes_eq, bytes_eq→eq,
  bytes_eq_refl, if◌then◌else◌, Bool-cases, length, get_elem?, arith,
}
use go_tor.Directory.{Relay}
use go_tor.Path.Guards.{
  GuardEntry, GuardState, is_fresh, guard_expiry, max_guards, valid_guards, get_guards, is_known,
  touch, has_unconfirmed, remove_unconfirmed, new_entry, insert_guard, add_guard, save,
}
use go_tor.Path.{
  Selector, PathError, find_relay, find_persistent, or_else, pick, persist, with_picked,
  select_guard, no_guards,
}
use go_tor.Path.Filters.{pick-get}

-- No fresh guard of the list is in the consensus.
abbrev Gone : ℕ → List Relay → List GuardEntry → Type 0
Gone now rs [] = Unit
Gone now rs (g ∷ gs) = (is_fresh now g ≡ true → find_relay g.fingerprint rs ≡ none) × Gone now rs gs

or_else-none : (a b : Option Relay) → or_else a b ≡ none → (a ≡ none) × (b ≡ none)
or_else-none none b h = (refl, h)
or_else-none (some r) b h = absurd (cc)

find_persistent-Gone :
    (now : ℕ) (gs : List GuardEntry) (rs : List Relay)
    → find_persistent (valid_guards now gs) rs ≡ none
    → Gone now rs gs
unfolding find_persistent valid_guards
find_persistent-Gone now [] rs h = tt
find_persistent-Gone now (g ∷ gs) rs h = elim (Bool-cases (is_fresh now g)) [
  | inl e ↦
      let k =
        or_else-none (find_relay g.fingerprint rs) (find_persistent (valid_guards now gs) rs) (
          subst
            (λ b.
              find_persistent (if b then g ∷ valid_guards now gs else valid_guards now gs) rs
              ≡ none)
            e h) in
      (λ _. k.0, find_persistent-Gone now gs rs k.1)
  | inr e ↦
      let k =
        subst
          (λ b.
            find_persistent (if b then g ∷ valid_guards now gs else valid_guards now gs) rs ≡ none)
          e h in
      (λ f. absurd (cc), find_persistent-Gone now gs rs k)
]

Gone-later :
    (now later : ℕ) (gs : List GuardEntry) (rs : List Relay)
    → now ≤ later
    → Gone now rs gs
    → Gone later rs gs
Gone-later now later [] rs l h = tt
Gone-later now later (g ∷ gs) rs l h = (λ e. h.0 (ground arith), Gone-later now later gs rs l h.1)

Gone-remove_unconfirmed :
    (now : ℕ) (gs : List GuardEntry) (rs : List Relay)
    → Gone now rs gs
    → Gone now rs (remove_unconfirmed gs)
unfolding remove_unconfirmed
Gone-remove_unconfirmed now [] rs h = tt
Gone-remove_unconfirmed now (g ∷ gs) rs h = elim (Bool-cases g.confirmed) [
  | inl e ↦ rw e (h.0, Gone-remove_unconfirmed now gs rs h.1)
  | inr e ↦ rw e h.1
]

-- A fresh guard that is in the consensus is found behind guards that are not.
found_behind :
    (now : ℕ) (g : GuardEntry) (q : Relay) (gs : List GuardEntry) (rs : List Relay)
    → Gone now rs gs
    → is_fresh now g ≡ true
    → find_relay g.fingerprint rs ≡ some q
    → find_persistent (valid_guards now (gs ++ (g ∷ []))) rs ≡ some q
unfolding find_persistent valid_guards
found_behind now g q [] rs h f e = rw (f, e) refl
found_behind now g q (x ∷ gs) rs h f e =
    let ih = found_behind now g q gs rs h.1 f e in
    elim (Bool-cases (is_fresh now x)) [ inl c ↦ rw (c, h.0 c) ih | inr c ↦ rw c ih ]

-- And so is a guard that is touched.
found_touched :
    (now later : ℕ) (fp : List ℕ) (q : Relay) (gs : List GuardEntry) (rs : List Relay)
    → Gone later rs gs
    → is_known fp gs ≡ true
    → ltb later (now + guard_expiry) ≡ true
    → find_relay fp rs ≡ some q
    → find_persistent (valid_guards later (touch now fp gs)) rs ≡ some q
unfolding find_persistent valid_guards touch is_known
found_touched now later fp q [] rs h k f e = absurd (cc)
found_touched now later fp q (x ∷ gs) rs h k f e = elim (Bool-cases (bytes_eq x.fingerprint fp)) [
  | inl c ↦
      let i : find_relay x.fingerprint rs ≡ some q =
        subst (λ t. find_relay t rs ≡ some q) (sym (bytes_eq→eq x.fingerprint fp c)) e in
      rw (c, f, i) refl
  | inr c ↦
      let ih = found_touched now later fp q gs rs h.1 (ground arith) f e in
      elim (Bool-cases (is_fresh later x)) [ inl d ↦ rw (c, d, h.0 d) ih | inr d ↦ rw (c, d) ih ]
]

find_relay-picked :
    (rs : List Relay) (i : ℕ) (r : Relay)
    → get_elem? rs i ≡ some r
    → (q : Relay) × (find_relay r.fingerprint rs ≡ some q) × (q.fingerprint ≡ r.fingerprint)
unfolding find_relay
find_relay-picked [] i r h = absurd (cc)
find_relay-picked (x ∷ rs) zero r h =
    let f : x ≡ r = ap (λ o. elim o [ none ↦ x | some y ↦ y ]) h in
    let e : bytes_eq x.fingerprint r.fingerprint ≡ true =
      subst (λ t. bytes_eq x.fingerprint t.fingerprint ≡ true) f (bytes_eq_refl x.fingerprint) in
    (x, rw e refl, ap (λ t. t.fingerprint) f)
find_relay-picked (x ∷ rs) (suc i) r h = elim (Bool-cases (bytes_eq x.fingerprint r.fingerprint)) [
  | inl e ↦ (x, rw e refl, bytes_eq→eq x.fingerprint r.fingerprint e)
  | inr e ↦ rw e (find_relay-picked rs i r h)
]

-- The relay is among the guards, or there is a place for it: an empty one or that of a guard which is
-- not confirmed.
abbrev pub HasRoom : Relay → List GuardEntry → Type 0
HasRoom r gs =
    (is_known r.fingerprint gs || (ltb (length gs) max_guards || has_unconfirmed gs)) ≡ true

found_added :
    (now later : ℕ) (r q : Relay) (s : GuardState) (rs : List Relay)
    → HasRoom r s.guards
    → Gone later rs s.guards
    → ltb later (now + guard_expiry) ≡ true
    → find_relay r.fingerprint rs ≡ some q
    → find_persistent (get_guards later (save now (add_guard now r s))) rs ≡ some q
unfolding get_guards save add_guard insert_guard new_entry
found_added now later r q s rs m h f e = elim (Bool-cases (is_known r.fingerprint s.guards)) [
  | inl k ↦ rw k (found_touched now later r.fingerprint q s.guards rs h k f e)
  | inr k ↦ elim (Bool-cases (leb max_guards (length s.guards))) [
    | inl c ↦
        let u : has_unconfirmed s.guards ≡ true = ground arith in
        rw (k, c, u)
          (found_behind later (new_entry now r) q (remove_unconfirmed s.guards) rs
            (Gone-remove_unconfirmed later s.guards rs h) f e)
    | inr c ↦ rw (k, c) (found_behind later (new_entry now r) q s.guards rs h f e)
  ]
]

-- The call where no persistent guard is found, on the state and on the result of the pick.
select_guard_fresh :
    (random : ℕ → Option ℕ) (now : ℕ) (s : Selector) (gm : GuardState)
    → s.guard_manager ≡ some gm
    → find_persistent (get_guards now gm) s.guards ≡ none
    → select_guard random now s ≡ with_picked now (pick random no_guards s.guards) s
unfolding select_guard
select_guard_fresh random now s gm g n = rw (g, n) refl

picked_of :
    (now : ℕ) (m : Result PathError Relay) (s : Selector) (r : Relay)
    → (with_picked now m s).1 ≡ ok r
    → m ≡ ok r
picked_of now (ok q) s r h = h
picked_of now (err e) s r h = absurd (cc)

select_guard_known :
    (random : ℕ → Option ℕ) (now : ℕ) (s : Selector) (gm : GuardState) (q : Relay)
    → s.guard_manager ≡ some gm
    → find_persistent (get_guards now gm) s.guards ≡ some q
    → select_guard random now s ≡ (s, ok q)
unfolding select_guard
select_guard_known random now s gm q g n = rw (g, n) refl

-- Where no persistent guard is in the consensus and the guard that is picked has room among the
-- persistent ones, every later call within 90 days of it, over the same consensus, returns a relay of
-- the same fingerprint and changes nothing, whatever the source of randomness.
pub guard_sticks :
    (random again : ℕ → Option ℕ) (now later : ℕ) (s : Selector) (gm : GuardState) (r : Relay)
    → s.guard_manager ≡ some gm
    → find_persistent (get_guards now gm) s.guards ≡ none
    → (select_guard random now s).1 ≡ ok r
    → HasRoom r gm.guards
    → now ≤ later
    → later < now + guard_expiry
    → let t = (select_guard random now s).0 in
      (q : Relay) × (select_guard again later t ≡ (t, ok q)) × (q.fingerprint ≡ r.fingerprint)
unfolding get_guards persist
guard_sticks random again now later s gm r g n e m l u =
    let whole = select_guard_fresh random now s gm g n in
    let p = picked_of now (pick random no_guards s.guards) s r (ap (λ x. x.1) (sym whole) ∙ e) in
    let (i, f) = pick-get random no_guards s.guards r p in
    let (q, h, k) = find_relay-picked s.guards i r f in
    let gone =
      Gone-later now later gm.guards s.guards l (find_persistent-Gone now gm.guards s.guards n) in
    let v : ltb later (now + guard_expiry) ≡ true = ground arith in
    let state : (select_guard random now s).0
        ≡ record s { guard_manager = some (save now (add_guard now r gm)) } =
      ap (λ x. x.0) whole
      ∙ ap (λ x. (with_picked now x s).0) p
      ∙ ap (λ o. record s { guard_manager = persist now r o }) g in
    rw state (
      q,
      select_guard_known again later _ _ q refl (found_added now later r q gm s.guards m gone v h),
      k,
    )

-- Where three confirmed guards or more have all left the consensus, a call returns what the source of
-- randomness picks and keeps the list of guards as it is, unless the pick fails: the next call picks
-- anew.
pub full_guards_random :
    (random : ℕ → Option ℕ) (now : ℕ) (s : Selector) (gm : GuardState) (r : Relay)
    → s.guard_manager ≡ some gm
    → find_persistent (get_guards now gm) s.guards ≡ none
    → is_known r.fingerprint gm.guards ≡ false
    → max_guards ≤ length gm.guards
    → has_unconfirmed gm.guards ≡ false
    → pick random no_guards s.guards ≡ ok r
    → select_guard random now s ≡ (record s { guard_manager = some (save now gm) }, ok r)
unfolding add_guard insert_guard persist
full_guards_random random now s gm r g n k l u p =
    let c : leb max_guards (length gm.guards) ≡ true = ground arith in
    let a : add_guard now r gm ≡ gm = rw (k, c, u) refl in
    select_guard_fresh random now s gm g n
    ∙ ap (λ m. with_picked now m s) p
    ∙ ap (λ o. (record s { guard_manager = persist now r o }, ok r)) g
    ∙ ap (λ x. (record s { guard_manager = some (save now x) }, ok r)) a
