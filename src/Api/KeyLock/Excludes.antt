-- ===== src/Api/KeyLock/Excludes.antt =====
-- What the locks of the keys promise.
use backupgate.Prelude.{ℕ, ◌≡◌, sym, ap, ◌∙◌, ◌⊎◌, inl, inr, some, Bool-cases, Bytes}
use backupgate.Config.Keys.{find_key}
use backupgate.Api.KeyLock.{
  waiting, inside, System, entered, left, Step, look, lock, unlock, Reach, begin, next,
}
use backupgate.Api.KeyLock.Invariant.{Inv, start-Inv, entered-Inv, left-Inv}
use backupgate.Api.KeyLock.Stores.{looked-Inv}

module _ (key_of : ℕ → Bytes) where
  Reach-Inv : {s : System} → Reach key_of s → Inv key_of s
  Reach-Inv begin = start-Inv key_of
  Reach-Inv (next r (look t s e)) = looked-Inv key_of t s (Reach-Inv r) e
  Reach-Inv (next r (lock t m s e f)) = entered-Inv key_of t m s (Reach-Inv r) e f
  Reach-Inv (next r (unlock t m s e)) = left-Inv key_of t m s (Reach-Inv r) e

  -- However the requests that run at the same time take turns, at most one of those for a key is
  -- between its Lock and its Unlock.
  pub Reach-exclusion :
      {s : System}
      → Reach key_of s
      → (t u m n : ℕ) → s.phase t ≡ inside m
      → s.phase u ≡ inside n
      → key_of t ≡ key_of u
      → t ≡ u
  Reach-exclusion {s} r t u m n e f same =
      let inv = Reach-Inv r in
      let mutex : some m ≡ some n =
        sym (inv.stored t m (inr e))
        ∙ ap (λ k. find_key k s.key_mu) same
        ∙ inv.stored u n (inr f) in
      let one : m ≡ n = cc in inv.one_inside t u m e (f ∙ ap inside (sym one))

  -- A request that waits for its Lock can go on, whatever the other keys do, unless another request for
  -- the same key is between its Lock and its Unlock, and that one can unlock.
  pub Reach-progress :
      {s : System}
      → Reach key_of s
      → (t m : ℕ) → s.phase t ≡ waiting m
      → Step key_of s (entered key_of t m s)
        ⊎ ((u : ℕ) × (s.phase u ≡ inside m)
            × (key_of u ≡ key_of t)
            × Step key_of s (left key_of u m s))
  Reach-progress {s} r t m e =
      let inv = Reach-Inv r in
      elim (Bool-cases (s.locked m)) [
        | inr is_free ↦ inl (lock t m s e is_free)
        | inl is_locked ↦
            let (u, there) = inv.owner m is_locked in
            inr (
              u,
              there,
              inv.one_key (key_of u) (key_of t) m (inv.stored u m (inr there))
                  (inv.stored t m (inl e)),
              unlock u m s there,
            )
      ]
