-- ===== src/Path/Guards.antt =====
-- pkg/path/guards.go: the guards that are kept between runs.
-- A time is nanoseconds; the clock is an argument of each call. The state file is its JSON text, a
-- codec of the standard library.
pub mod Distinct
pub mod Kept
mod Tests
use go_tor.Prelude.{
  ℕ, ◌+◌, ◌-◌, ◌*◌, Bool, true, false, List, [], ◌∷◌, ◌++◌, Result, ok, err, ltb, leb, bytes_eq,
  if◌then◌else◌, length,
}
use go_tor.Directory.{Relay}
use go_tor.Circuit.Core.{second}

pub record GuardEntry : Type 0 where
  pub fingerprint : List ℕ
  pub nickname : List ℕ
  pub address : List ℕ
  pub first_used : ℕ
  pub last_used : ℕ
  pub confirmed : Bool

pub record GuardState : Type 0 where
  pub guards : List GuardEntry
  pub last_updated : ℕ

abbrev pub max_guards : ℕ
max_guards = 3

-- 90 days.
abbrev pub guard_expiry : ℕ
guard_expiry = 90 * 24 * 3600 * second

-- The difference of the two times is an int64 that may be negative.
abbrev pub is_fresh : ℕ → GuardEntry → Bool
is_fresh now g = ltb now (g.last_used + guard_expiry)

unfoldable pub valid_guards : ℕ → List GuardEntry → List GuardEntry
valid_guards now [] = []
valid_guards now (g ∷ gs) =
    let rest = valid_guards now gs in if is_fresh now g then g ∷ rest else rest

unfoldable pub get_guards : ℕ → GuardState → List GuardEntry
unfolding valid_guards
get_guards now s = valid_guards now s.guards

unfoldable pub is_known : List ℕ → List GuardEntry → Bool
is_known fp [] = false
is_known fp (g ∷ gs) = let rest = is_known fp gs in if bytes_eq g.fingerprint fp then true else rest

-- The first guard with the fingerprint is used now, and confirmed.
unfoldable pub touch : ℕ → List ℕ → List GuardEntry → List GuardEntry
touch now fp [] = []
touch now fp (g ∷ gs) =
    let rest = touch now fp gs in
    if bytes_eq g.fingerprint fp
    then record g { last_used = now; confirmed = true } ∷ gs
    else g ∷ rest

unfoldable pub has_unconfirmed : List GuardEntry → Bool
has_unconfirmed [] = false
has_unconfirmed (g ∷ gs) = let rest = has_unconfirmed gs in if g.confirmed then rest else true

-- The list without its first guard that is not confirmed.
unfoldable pub remove_unconfirmed : List GuardEntry → List GuardEntry
remove_unconfirmed [] = []
remove_unconfirmed (g ∷ gs) =
    let rest = remove_unconfirmed gs in if g.confirmed then g ∷ rest else gs

unfoldable pub new_entry : ℕ → Relay → GuardEntry
new_entry now r = record {
  fingerprint = r.fingerprint;
  nickname = r.nickname;
  address = r.address;
  first_used = now;
  last_used = now;
  confirmed = false;
}

unfoldable pub insert_guard : ℕ → Relay → List GuardEntry → List GuardEntry
unfolding has_unconfirmed remove_unconfirmed new_entry
insert_guard now r gs =
    if leb max_guards (length gs)
    then if has_unconfirmed gs then remove_unconfirmed gs ++ (new_entry now r ∷ []) else gs
    else gs ++ (new_entry now r ∷ [])

unfoldable pub add_guard : ℕ → Relay → GuardState → GuardState
unfolding is_known touch insert_guard
add_guard now r s =
    if is_known r.fingerprint s.guards
    then record s { guards = touch now r.fingerprint s.guards }
    else record s { guards = insert_guard now r s.guards }

pub data GuardError : Type 0 where
  guard_not_found : GuardError

unfoldable pub confirm_guard : ℕ → List ℕ → GuardState → GuardState × Result GuardError (Unit {0})
unfolding is_known touch
confirm_guard now fp s =
    if is_known fp s.guards
    then (record s { guards = touch now fp s.guards }, ok tt)
    else (s, err guard_not_found)

-- The list without the first guard with the fingerprint.
unfoldable pub remove_first : List ℕ → List GuardEntry → List GuardEntry
remove_first fp [] = []
remove_first fp (g ∷ gs) =
    let rest = remove_first fp gs in if bytes_eq g.fingerprint fp then gs else g ∷ rest

unfoldable pub remove_guard : List ℕ → GuardState → GuardState × Result GuardError (Unit {0})
unfolding is_known remove_first
remove_guard fp s =
    if is_known fp s.guards
    then (record s { guards = remove_first fp s.guards }, ok tt)
    else (s, err guard_not_found)

-- The assignment only where some guard has expired. The list is the same otherwise.
unfoldable pub cleanup_expired : ℕ → GuardState → GuardState
unfolding valid_guards
cleanup_expired now s =
    let kept = valid_guards now s.guards in
    if ltb (length kept) (length s.guards) then record s { guards = kept } else s

unfoldable pub save : ℕ → GuardState → GuardState
save now s = record s { last_updated = now }

unfoldable pub count_confirmed : List GuardEntry → ℕ
count_confirmed [] = 0
count_confirmed (g ∷ gs) = let rest = count_confirmed gs in if g.confirmed then rest + 1 else rest

pub record GuardStats : Type 0 where
  pub total_guards : ℕ
  pub confirmed_guards : ℕ
  pub updated : ℕ

unfoldable pub get_stats : GuardState → GuardStats
unfolding count_confirmed
get_stats s = record {
  total_guards = length s.guards;
  confirmed_guards = count_confirmed s.guards;
  updated = s.last_updated;
}
