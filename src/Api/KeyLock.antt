-- ===== src/Api/KeyLock.antt =====
-- internal/api/handler.go, `acquireKeyLock`: requests that run at the same time, each for its key. A
-- step is one call of a request: LoadOrStore, Lock or Unlock.
use backupgate.Prelude.{
  ℕ, ◌+◌, ◌≡◌, Bool, true, false, none, some, List, [], ◌∷◌, ◌==◌, if◌then◌else◌, Bytes,
}
mod Invariant
mod Stores
pub mod Excludes
mod Tests
use backupgate.Config.Keys.{find_key}

-- Where a request is: before `acquireKeyLock`, with a mutex before its Lock, between Lock and
-- Unlock, and behind Unlock.
pub data Phase : Type 0 where
  arriving gone : Phase
  waiting inside : ℕ → Phase

-- `keyMu`, whose mutexes are numbers, the number of the next new mutex, which mutexes are locked, and
-- where each request is.
pub record System : Type 0 where
  pub key_mu : List (Bytes × ℕ)
  pub fresh : ℕ
  pub locked : ℕ → Bool
  pub phase : ℕ → Phase

-- `keyMu.LoadOrStore(key, m)`: the mutex of the key, and the map.
pub load_or_store : Bytes → ℕ → List (Bytes × ℕ) → ℕ × List (Bytes × ℕ)
load_or_store key m mutexes = elim (find_key key mutexes) [
  | some old ↦ (old, mutexes)
  | none ↦ (m, (key, m) ∷ mutexes)
]

-- A function with another value at `i`.
pub updated : {A : Type 0} → ℕ → A → (ℕ → A) → ℕ → A
updated i a f j = if j == i then a else f j

abbrev pub start : System
start = record { key_mu = []; fresh = 0; locked = λ m. false; phase = λ t. arriving }

module _ (key_of : ℕ → Bytes) where
  -- The system behind the LoadOrStore of the request `t`, its Lock and its Unlock of the mutex `m`.
  pub looked : ℕ → System → System
  unfolding load_or_store updated
  looked t s =
      let (m, mutexes) = load_or_store (key_of t) s.fresh s.key_mu in
      record {
        key_mu = mutexes;
        fresh = s.fresh + 1;
        locked = s.locked;
        phase = updated t (waiting m) s.phase;
      }

  pub entered : ℕ → ℕ → System → System
  unfolding updated
  entered t m s = record {
    key_mu = s.key_mu;
    fresh = s.fresh;
    locked = updated m true s.locked;
    phase = updated t (inside m) s.phase;
  }

  pub left : ℕ → ℕ → System → System
  unfolding updated
  left t m s = record {
    key_mu = s.key_mu;
    fresh = s.fresh;
    locked = updated m false s.locked;
    phase = updated t gone s.phase;
  }

  -- A step of the request `t`; Lock waits for a mutex that is not locked.
  pub data Step : System → System → Type 0 where
    look : (t : ℕ) (s : System) → s.phase t ≡ arriving → Step s (looked t s)
    lock :
        (t m : ℕ) (s : System) → s.phase t ≡ waiting m → s.locked m ≡ false → Step s (entered t m s)
    unlock : (t m : ℕ) (s : System) → s.phase t ≡ inside m → Step s (left t m s)

  -- The systems that any order of the requests' steps leads to.
  pub data Reach : System → Type 0 where
    begin : Reach start
    next : {s s' : System} → Reach s → Step s s' → Reach s'
