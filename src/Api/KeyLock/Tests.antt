-- ===== src/Api/KeyLock/Tests.antt =====
-- Two requests for one key.
use backupgate.Prelude.{ℕ, ◌≡◌, refl, ◌⊎◌, false, Bytes, bytes, str_eq}
use backupgate.Config.Keys.{find_key}
use backupgate.Api.KeyLock.{
  arriving, waiting, inside, System, load_or_store, updated, start, looked, entered, left, Step,
  look, lock, Reach, begin, next,
}
use backupgate.Api.KeyLock.Excludes.{Reach-exclusion, Reach-progress}

abbrev db : ℕ → Bytes
db t = bytes "db"

-- Both have the mutex, and the first one has locked it.
abbrev both : System
both = looked db 1 (looked db 0 start)

abbrev first_inside : System
first_inside = entered db 0 0 both

waits : both.phase 0 ≡ waiting 0
unfolding looked load_or_store updated find_key str_eq
waits = refl

is_free : both.locked 0 ≡ false
unfolding looked
is_free = refl

arrives : (looked db 0 start).phase 1 ≡ arriving
unfolding looked updated
arrives = refl

reached : Reach db first_inside
reached =
    next (next (next begin (look 0 start refl)) (look 1 (looked db 0 start) arrives))
      (lock 0 0 both waits is_free)

has_lock : first_inside.phase 0 ≡ inside 0
unfolding entered updated
has_lock = refl

second_waits : first_inside.phase 1 ≡ waiting 0
unfolding entered looked load_or_store updated find_key str_eq
second_waits = refl

Reach-exclusion_example : ◌≡◌ {A = ℕ} 0 0
Reach-exclusion_example = Reach-exclusion db reached 0 0 0 0 has_lock has_lock refl

Reach-progress_example :
    Step db first_inside (entered db 1 0 first_inside)
    ⊎ ((u : ℕ) × (first_inside.phase u ≡ inside 0)
        × (db u ≡ db 1)
        × Step db first_inside (left db u 0 first_inside))
Reach-progress_example = Reach-progress db reached 1 0 second_waits
