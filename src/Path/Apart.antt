-- ===== src/Path/Apart.antt =====
-- What a selected path is made of, and when there is one.
use go_tor.Prelude.{
  ℕ, ◌≡◌, ◌≢◌, refl, sym, subst, ap, inl, inr, true, false, ◌||◌, List, Option, none, some, Result,
  ok, err, bytes_eq, if◌then◌else◌, Bool-cases, All, bytes_eq_refl, ◌>>=◌,
}
use go_tor.Directory.{Relay, is_guard, is_stable, is_running, is_valid}
use go_tor.Path.Guards.{GuardState, get_guards}
use go_tor.Path.{
  Selector, Path3, PathError, usable, update_consensus, pick, with_picked, persistent, or_pick,
  select_guard, others, exits, select_exit, select_middle, Choices, is_none_left, rest_of_path,
  select_path, no_guards, no_exits, no_middles, no_relays,
}
use go_tor.Path.Filters.{
  pick-All, others-All, exits-All, or_any-All, usable-All, stable_guards-All, find_persistent-All,
}

bind_ok :
    {E A B : Type 0} (m : Result E A) (f : A → Result E B) (b : B)
    → (m >>= f) ≡ ok b
    → (a : A) × (m ≡ ok a) × (f a ≡ ok b)
bind_ok (ok a) f b h = (a, refl, h)
bind_ok (err e) f b h = absurd (cc)

ok_injective : {E A : Type 0} (a b : A) → ◌≡◌ {A = Result E A} (ok a) (ok b) → a ≡ b
ok_injective a b h = ap (λ r. elim r [ ok x ↦ x | err e ↦ a ]) h

-- The relays of `rs` satisfy P, run and are valid.
abbrev pub Usable : (Relay → Type 0) → Relay → Type 0
Usable P r = P r × (is_running r ≡ true) × (is_valid r ≡ true)

abbrev pub IsEntry : (Relay → Type 0) → Relay → Type 0
IsEntry P r = Usable P r × (is_guard r ≡ true) × (is_stable r ≡ true)

apart_of :
    (a b : Relay) → bytes_eq a.fingerprint b.fingerprint ≡ false → a.fingerprint ≢ b.fingerprint
apart_of a b h e =
    let f = subst (λ t. bytes_eq a.fingerprint t ≡ false) (sym e) h in
    let g = bytes_eq_refl a.fingerprint in cc

-- A path whose relays are of the consensus, usable, and have three different fingerprints.
pub record IsPath (P : Relay → Type 0) (p : Path3) : Type 0 where
  pub entry : IsEntry P p.guard
  pub middle_usable : Usable P p.middle
  pub exit_usable : Usable P p.exit
  pub exit_apart : p.exit.fingerprint ≢ p.guard.fingerprint
  pub middle_apart_guard : p.middle.fingerprint ≢ p.guard.fingerprint
  pub middle_apart_exit : p.middle.fingerprint ≢ p.exit.fingerprint

or_pick-All :
    (P : Relay → Type 0) (random : ℕ → Option ℕ) (now : ℕ) (o : Option Relay) (s : Selector)
    (q : Relay)
    → All P s.guards
    → ((r : Relay) → o ≡ some r → P r)
    → (or_pick random now o s).1 ≡ ok q
    → P q
or_pick-All P random now (some r) s q h f e = f q (ap some (ok_injective r q e))
or_pick-All P random now none s q h f e =
    pick-All P random no_guards s.guards q h (picked_result (pick random no_guards s.guards) e)
  where
    picked_result : (m : Result PathError Relay) → (with_picked now m s).1 ≡ ok q → m ≡ ok q
    picked_result (ok r) k = k
    picked_result (err x) k = absurd (cc)

persistent-All :
    (P : Relay → Type 0) (now : ℕ) (gm : Option GuardState) (rs : List Relay) (q : Relay)
    → All P rs
    → persistent now gm rs ≡ some q
    → P q
persistent-All P now none rs q h e = absurd (cc)
persistent-All P now (some s) rs q h e = find_persistent-All P (get_guards now s) rs q h e

select_guard-All :
    (P : Relay → Type 0) (random : ℕ → Option ℕ) (now : ℕ) (s : Selector) (q : Relay)
    → All P s.guards
    → (select_guard random now s).1 ≡ ok q
    → P q
unfolding select_guard
select_guard-All P random now s q h e =
    or_pick-All P random now (persistent now s.guard_manager s.guards) s q h
      (λ r. persistent-All P now s.guard_manager s.guards r h) e

or_pick-relays :
    (random : ℕ → Option ℕ) (now : ℕ) (o : Option Relay) (s : Selector)
    → (or_pick random now o s).0.relays ≡ s.relays
or_pick-relays random now (some r) s = refl
or_pick-relays random now none s = same (pick random no_guards s.guards)
  where
    same : (m : Result PathError Relay) → (with_picked now m s).0.relays ≡ s.relays
    same (ok r) = refl
    same (err e) = refl

pub select_guard-relays :
    (random : ℕ → Option ℕ) (now : ℕ) (s : Selector)
    → (select_guard random now s).0.relays ≡ s.relays
unfolding select_guard
select_guard-relays random now s = or_pick-relays random now _ s

select_exit-All :
    (P : Relay → Type 0) (random : ℕ → Option ℕ) (port : ℕ) (g q : Relay) (s : Selector)
    → All P s.relays
    → select_exit random port g s ≡ ok q
    → P q × (bytes_eq q.fingerprint g.fingerprint ≡ false)
unfolding select_exit
select_exit-All P random port g q s h e =
    pick-All (λ r. P r × (bytes_eq r.fingerprint g.fingerprint ≡ false)) random no_exits _ q
      (or_any-All _ (exits g.fingerprint s.relays) _ (exits-All P g.fingerprint s.relays h)
        (others-All P g.fingerprint s.relays h))
      e

select_middle-All :
    (P : Relay → Type 0) (random : ℕ → Option ℕ) (g x q : Relay) (s : Selector)
    → All P s.relays
    → select_middle random g x s ≡ ok q
    → (P q × (bytes_eq q.fingerprint g.fingerprint ≡ false))
      × (bytes_eq q.fingerprint x.fingerprint ≡ false)
unfolding select_middle
select_middle-All P random g x q s h e =
    pick-All
      (λ r.
        (P r × (bytes_eq r.fingerprint g.fingerprint ≡ false))
        × (bytes_eq r.fingerprint x.fingerprint ≡ false))
      random no_middles _ q
      (others-All _ x.fingerprint (others g.fingerprint s.relays)
        (others-All P g.fingerprint s.relays h))
      e

-- The exit and the middle after a guard.
rest_of_path-IsPath :
    (P : Relay → Type 0) (c : Choices) (port : ℕ) (s : Selector) (m : Result PathError Relay)
    (p : Path3)
    → All (Usable P) s.relays
    → ((g : Relay) → m ≡ ok g → IsEntry P g)
    → (rest_of_path c port (s, m)).1 ≡ ok p
    → IsPath P p
rest_of_path-IsPath P c port s (err e) p h f k = absurd (cc)
rest_of_path-IsPath P c port s (ok g) p h f k =
    let (x, ex, k2) = bind_ok (select_exit c.for_exit port g s) _ p k in
    let (y, ey, k3) = bind_ok (select_middle c.for_middle g x s) _ p k2 in
    let a = select_exit-All (Usable P) c.for_exit port g x s h ex in
    let b = select_middle-All (Usable P) c.for_middle g x y s h ey in
    subst (IsPath P) (ok_injective {E = PathError} _ p k3) (record {
      entry = f g refl;
      middle_usable = b.0.0;
      exit_usable = a.0;
      exit_apart = apart_of x g a.1;
      middle_apart_guard = apart_of y g b.0.1;
      middle_apart_exit = apart_of y x b.1;
    })

select_path-IsPath :
    (P : Relay → Type 0) (c : Choices) (now port : ℕ) (s : Selector) (p : Path3)
    → All (Usable P) s.relays
    → All (IsEntry P) s.guards
    → (select_path c now port s).1 ≡ ok p
    → IsPath P p
unfolding select_path
select_path-IsPath P c now port s p h k e =
    elim (Bool-cases (is_none_left s.guards || is_none_left s.relays)) [
      | inl t ↦ absurd (
          let f =
            subst
              (λ b.
                (if b
                  then (s, err no_relays)
                  else rest_of_path c port (select_guard c.for_guard now s)).1
                ≡ ok p)
              t e in
          cc)
      | inr t ↦
          let f =
            subst
              (λ b.
                (if b
                  then (s, err no_relays)
                  else rest_of_path c port (select_guard c.for_guard now s)).1
                ≡ ok p)
              t e in
          rest_of_path-IsPath P c port (select_guard c.for_guard now s).0
            (select_guard c.for_guard now s).1 p
            (subst (All (Usable P)) (sym (select_guard-relays c.for_guard now s)) h)
            (λ g. select_guard-All (IsEntry P) c.for_guard now s g k) f
    ]

-- After a consensus, every path that is selected has three relays of that consensus (whatever holds
-- of all its relays holds of them), all running and valid, of three different fingerprints, behind a
-- relay with the flags Guard and Stable.
pub select_path_apart :
    (P : Relay → Type 0) (relays : List Relay) (s : Selector) (c : Choices) (now port : ℕ)
    (p : Path3)
    → All P relays
    → (select_path c now port (update_consensus (ok relays) s).0).1 ≡ ok p
    → IsPath P p
unfolding update_consensus
select_path_apart P relays s c now port p h e =
    let u = usable-All P relays h in
    select_path-IsPath P c now port (update_consensus (ok relays) s).0 p u
      (stable_guards-All (Usable P) (usable relays) u) e
