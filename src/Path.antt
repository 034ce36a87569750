-- ===== src/Path.antt =====
-- pkg/path/path.go: the choice of guard, middle and exit.
-- The random index is a function of the bound, or `none` where the source of randomness fails.
pub mod Guards
pub mod Filters
pub mod Apart
pub mod Three
pub mod Found
pub mod Sticky
mod Tests
use go_tor.Prelude.{
  ℕ, Bool, true, false, not, ◌&&◌, ◌||◌, List, [], ◌∷◌, Option, none, some, Result, ok, err,
  bytes_eq, if◌then◌else◌, length, get_elem?, ◌>>=◌,
}
use go_tor.Directory.{Relay, DirectoryError, is_guard, is_exit, is_stable, is_running, is_valid}
use go_tor.Path.Guards.{
  GuardEntry, GuardState, GuardError, get_guards, add_guard, save, confirm_guard,
}

-- `guard_manager` is nil without persistence.
pub record Selector : Type 0 where
  pub guard_manager : Option GuardState
  pub guards : List Relay
  pub relays : List Relay

pub record Path3 : Type 0 where
  pub guard : Relay
  pub middle : Relay
  pub exit : Relay

unfoldable pub new_selector : Option GuardState → Selector
new_selector gm = record { guard_manager = gm; guards = []; relays = [] }

unfoldable pub usable : List Relay → List Relay
usable [] = []
usable (r ∷ rs) =
    let rest = usable rs in if not (is_running r) || not (is_valid r) then rest else r ∷ rest

unfoldable pub stable_guards : List Relay → List Relay
stable_guards [] = []
stable_guards (r ∷ rs) =
    let rest = stable_guards rs in if is_guard r && is_stable r then r ∷ rest else rest

unfoldable pub update_consensus :
    Result (Option DirectoryError) (List Relay)
    → Selector
    → Selector × Result (Option DirectoryError) (Unit {0})
unfolding usable stable_guards
update_consensus (err e) s = (s, err e)
update_consensus (ok relays) s =
    (record s { guards = stable_guards (usable relays); relays = usable relays }, ok tt)

pub data PathError : Type 0 where
  no_relays no_guards no_exits no_middles random_failed : PathError

-- The first relay with the fingerprint.
unfoldable pub find_relay : List ℕ → List Relay → Option Relay
find_relay fp [] = none
find_relay fp (r ∷ rs) =
    let rest = find_relay fp rs in if bytes_eq r.fingerprint fp then some r else rest

abbrev pub or_else : Option Relay → Option Relay → Option Relay
or_else none later = later
or_else (some r) later = some r

-- The first persistent guard that the consensus has.
unfoldable pub find_persistent : List GuardEntry → List Relay → Option Relay
unfolding find_relay
find_persistent [] rs = none
find_persistent (g ∷ gs) rs =
    let later = find_persistent gs rs in or_else (find_relay g.fingerprint rs) later

-- An index out of range panics in the source; the library's random numbers are below the bound.
abbrev pub picked : Option Relay → Result PathError Relay
picked none = err random_failed
picked (some r) = ok r

abbrev pub pick_at : Option ℕ → List Relay → Result PathError Relay
pick_at none rs = err random_failed
pick_at (some i) rs = picked (get_elem? rs i)

unfoldable pub pick : (ℕ → Option ℕ) → PathError → List Relay → Result PathError Relay
pick random none_left [] = err none_left
pick random none_left (r ∷ rs) = pick_at (random (length (r ∷ rs))) (r ∷ rs)

-- `AddGuard` and `Save` on the guard that was picked, where there is a guard manager.
unfoldable pub persist : ℕ → Relay → Option GuardState → Option GuardState
unfolding add_guard save
persist now r none = none
persist now r (some s) = some (save now (add_guard now r s))

abbrev pub with_picked : ℕ → Result PathError Relay → Selector → Selector × Result PathError Relay
with_picked now (err e) s = (s, err e)
with_picked now (ok r) s = (record s { guard_manager = persist now r s.guard_manager }, ok r)

abbrev pub persistent : ℕ → Option GuardState → List Relay → Option Relay
persistent now none rs = none
persistent now (some s) rs = find_persistent (get_guards now s) rs

abbrev pub or_pick :
    (ℕ → Option ℕ) → ℕ → Option Relay → Selector → Selector × Result PathError Relay
or_pick random now (some r) s = (s, ok r)
or_pick random now none s = with_picked now (pick random no_guards s.guards) s

unfoldable pub select_guard : (ℕ → Option ℕ) → ℕ → Selector → Selector × Result PathError Relay
unfolding find_persistent pick persist
select_guard random now s = or_pick random now (persistent now s.guard_manager s.guards) s

-- The relays with another fingerprint.
unfoldable pub others : List ℕ → List Relay → List Relay
others fp [] = []
others fp (r ∷ rs) = let rest = others fp rs in if bytes_eq r.fingerprint fp then rest else r ∷ rest

unfoldable pub exits : List ℕ → List Relay → List Relay
exits fp [] = []
exits fp (r ∷ rs) =
    let rest = exits fp rs in
    if is_exit r && not (bytes_eq r.fingerprint fp) then r ∷ rest else rest

abbrev pub or_any : List Relay → List Relay → List Relay
or_any [] any = any
or_any (r ∷ rs) any = r ∷ rs

-- The port is not read.
unfoldable pub select_exit : (ℕ → Option ℕ) → ℕ → Relay → Selector → Result PathError Relay
unfolding others exits pick
select_exit random port avoid s =
    pick random no_exits
      (or_any (exits avoid.fingerprint s.relays) (others avoid.fingerprint s.relays))

unfoldable pub select_middle : (ℕ → Option ℕ) → Relay → Relay → Selector → Result PathError Relay
unfolding others pick
select_middle random guard exit s =
    pick random no_middles (others exit.fingerprint (others guard.fingerprint s.relays))

-- The random choices of one call: for the guard, the exit and the middle.
pub record Choices : Type 0 where
  pub for_guard : ℕ → Option ℕ
  pub for_exit : ℕ → Option ℕ
  pub for_middle : ℕ → Option ℕ

abbrev pub is_none_left : List Relay → Bool
is_none_left [] = true
is_none_left (r ∷ rs) = false

abbrev pub rest_of_path :
    Choices → ℕ → Selector × Result PathError Relay → Selector × Result PathError Path3
rest_of_path c port (s, err e) = (s, err e)
rest_of_path c port (s, ok guard) = (
  s,
  select_exit c.for_exit port guard s >>= λ exit.
      select_middle c.for_middle guard exit s >>= λ middle.
      ok (record { guard = guard; middle = middle; exit = exit }),
)

unfoldable pub select_path : Choices → ℕ → ℕ → Selector → Selector × Result PathError Path3
unfolding select_exit select_middle select_guard
select_path c now port s =
    if is_none_left s.guards || is_none_left s.relays
    then (s, err no_relays)
    else rest_of_path c port (select_guard c.for_guard now s)

abbrev saved_if : ℕ → GuardState × Result GuardError (Unit {0}) → GuardState
saved_if now (s, ok _) = save now s
saved_if now (s, err _) = s

-- `Selector.ConfirmGuard`
abbrev pub confirmed_in : ℕ → List ℕ → Option GuardState → Option GuardState
confirmed_in now fp none = none
confirmed_in now fp (some s) = some (saved_if now (confirm_guard now fp s))

unfoldable pub confirm_selected : ℕ → List ℕ → Selector → Selector
unfolding confirm_guard save
confirm_selected now fp s = record s { guard_manager = confirmed_in now fp s.guard_manager }
