-- ===== src/Api/KeyLock/Invariant.antt =====
-- What holds of the locks of the keys, and Lock and Unlock keep.
use backupgate.Prelude.{
  ℕ, ◌<◌, ◌≡◌, refl, sym, ap, ◌∙◌, ◌≢◌, ◌⊎◌, inl, inr, Bool, true, false, some, arith, ◌==◌, ==_iff,
  Bool-cases, Bytes,
}
use backupgate.Config.Keys.{find_key}
use backupgate.Api.KeyLock.{Phase, gone, waiting, inside, System, updated, start, entered, left}

updated_same : {A : Type 0} (i : ℕ) (a : A) (f : ℕ → A) → updated i a f i ≡ a
unfolding updated
updated_same i a f = ground arith

pub updated_other : {A : Type 0} (i j : ℕ) (a : A) (f : ℕ → A) → j ≢ i → updated i a f j ≡ f j
unfolding updated
updated_other i j a f apart = ground arith

updated-true : (i j : ℕ) (f : ℕ → Bool) → f j ≡ true → updated i true f j ≡ true
unfolding updated
updated-true i j f h = ground arith

inside_inj : {m n : ℕ} → inside m ≡ inside n → m ≡ n
inside_inj e = cc

module _ (key_of : ℕ → Bytes) where
  -- The request `t` has got the mutex `m`, and has not given it back.
  abbrev pub Has : System → ℕ → ℕ → Type 0
  Has s t m = (s.phase t ≡ waiting m) ⊎ (s.phase t ≡ inside m)

  pub record Inv (s : System) : Type 0 where
    pub stored : (t m : ℕ) → Has s t m → find_key (key_of t) s.key_mu ≡ some m
    pub old : (k : Bytes) (m : ℕ) → find_key k s.key_mu ≡ some m → m < s.fresh
    pub one_key :
        (k k' : Bytes) (m : ℕ)
        → find_key k s.key_mu ≡ some m
        → find_key k' s.key_mu ≡ some m
        → k ≡ k'
    pub one_inside : (t u m : ℕ) → s.phase t ≡ inside m → s.phase u ≡ inside m → t ≡ u
    pub closed : (t m : ℕ) → s.phase t ≡ inside m → s.locked m ≡ true
    pub owner : (m : ℕ) → s.locked m ≡ true → (t : ℕ) × (s.phase t ≡ inside m)

  pub start-Inv : Inv start
  unfolding find_key
  start-Inv = record {
    stored = λ t m has. elim has [ inl e ↦ cc | inr e ↦ cc ];
    old = λ k m e. cc;
    one_key = λ k k' m e f. cc;
    one_inside = λ t u m e f. cc;
    closed = λ t m e. cc;
    owner = λ m e. cc;
  }

  -- The phase of a request behind a step of the request `t`.
  pub phase-cases :
      (f : ℕ → Phase) (t u : ℕ) (p q : Phase)
      → updated t p f u ≡ q
      → ((u ≡ t) × (p ≡ q)) ⊎ ((u ≢ t) × (f u ≡ q))
  unfolding updated
  phase-cases f t u p q h = elim (Bool-cases (u == t)) [
    | inl e ↦
        let hit : updated t p f u ≡ p = rw (e, updated) refl in inl ((==_iff u t).0 e, sym hit ∙ h)
    | inr e ↦
        let miss : updated t p f u ≡ f u = rw (e, updated) refl in
        inr
          ((λ same. let absurd : true ≡ false = sym ((==_iff u t).1 same) ∙ e in cc), sym miss ∙ h)
  ]

  pub entered-Inv :
      (t m : ℕ) (s : System)
      → Inv s
      → s.phase t ≡ waiting m
      → s.locked m ≡ false
      → Inv (entered key_of t m s)
  unfolding entered
  entered-Inv t m s inv waits is_free = record {
    stored = λ u n has. kept u n has;
    old = inv.old;
    one_key = inv.one_key;
    one_inside = λ u v n e f. alone u v n (cases u n e) (cases v n f);
    closed = λ u n e. shut u n (cases u n e);
    owner = λ n e. owned n e;
  }
    where
      Split : ℕ → ℕ → Type 0
      Split u n = ((u ≡ t) × (inside m ≡ inside n)) ⊎ ((u ≢ t) × (s.phase u ≡ inside n))

      cases : (u n : ℕ) → updated t (inside m) s.phase u ≡ inside n → Split u n
      cases u n e = phase-cases s.phase t u (inside m) (inside n) e

      kept : (u n : ℕ) → Has (entered key_of t m s) u n → find_key (key_of u) s.key_mu ≡ some n
      kept u n (inl e) = elim (phase-cases s.phase t u (inside m) (waiting n) e) [
        | inl (same, clash) ↦ cc
        | inr (apart, before) ↦ inv.stored u n (inl before)
      ]
      kept u n (inr e) = elim (cases u n e) [
        | inl (same, mutex) ↦
            ap (λ x. find_key (key_of x) s.key_mu) same
            ∙ inv.stored t m (inl waits)
            ∙ ap some (inside_inj mutex)
        | inr (apart, before) ↦ inv.stored u n (inr before)
      ]

      only : (v n : ℕ) → inside m ≡ inside n → s.phase v ≡ inside n → ⊥
      only v n mutex there =
          let absurd : true ≡ false =
            sym (inv.closed v n there) ∙ ap s.locked (sym (inside_inj mutex)) ∙ is_free in
          cc

      alone : (u v n : ℕ) → Split u n → Split v n → u ≡ v
      alone u v n (inl (a, x)) (inl (b, y)) = a ∙ sym b
      alone u v n (inl (a, x)) (inr (b, y)) = elim (only v n x y) [ ]
      alone u v n (inr (a, x)) (inl (b, y)) = elim (only u n y x) [ ]
      alone u v n (inr (a, x)) (inr (b, y)) = inv.one_inside u v n x y

      shut : (u n : ℕ) → Split u n → updated m true s.locked n ≡ true
      shut u n (inl (a, x)) =
          ap (updated m true s.locked) (sym (inside_inj x)) ∙ updated_same m true s.locked
      shut u n (inr (a, x)) = updated-true m n s.locked (inv.closed u n x)

      owned :
          (n : ℕ)
          → updated m true s.locked n ≡ true
          → (u : ℕ) × (updated t (inside m) s.phase u ≡ inside n)
      owned n e = elim (Bool-cases (n == m)) [
        | inl same ↦ (t, updated_same t (inside m) s.phase ∙ ap inside (sym ((==_iff n m).0 same)))
        | inr apart ↦
            let miss : updated m true s.locked n ≡ s.locked n = rw (apart, updated) refl in
            let (u, there) = inv.owner n (sym miss ∙ e) in
            (
              u,
              updated_other t u (inside m) s.phase (λ q.
                    let absurd : waiting m ≡ inside n = sym waits ∙ ap s.phase (sym q) ∙ there in
                    cc)
                  ∙ there,
            )
      ]

  pub left-Inv : (t m : ℕ) (s : System) → Inv s → s.phase t ≡ inside m → Inv (left key_of t m s)
  unfolding left
  left-Inv t m s inv holds = record {
    stored = λ u n has. kept u n has;
    old = inv.old;
    one_key = inv.one_key;
    one_inside = λ u v n e f. inv.one_inside u v n (before u n e).1 (before v n f).1;
    closed = λ u n e. shut u n (before u n e);
    owner = λ n e. owned n e;
  }
    where
      before : (u n : ℕ) → updated t gone s.phase u ≡ inside n → (u ≢ t) × (s.phase u ≡ inside n)
      before u n e = elim (phase-cases s.phase t u gone (inside n) e) [
        | inl (same, clash) ↦ cc
        | inr rest ↦ rest
      ]

      kept : (u n : ℕ) → Has (left key_of t m s) u n → find_key (key_of u) s.key_mu ≡ some n
      kept u n (inl e) = elim (phase-cases s.phase t u gone (waiting n) e) [
        | inl (same, clash) ↦ cc
        | inr (apart, there) ↦ inv.stored u n (inl there)
      ]
      kept u n (inr e) = inv.stored u n (inr (before u n e).1)

      shut : (u n : ℕ) → (u ≢ t) × (s.phase u ≡ inside n) → updated m false s.locked n ≡ true
      shut u n (apart, there) =
          updated_other m n false s.locked
            (λ q. apart (inv.one_inside u t m (there ∙ ap inside q) holds))
          ∙ inv.closed u n there

      owned :
          (n : ℕ)
          → updated m false s.locked n ≡ true
          → (u : ℕ) × (updated t gone s.phase u ≡ inside n)
      owned n e = elim (Bool-cases (n == m)) [
        | inl same ↦
            let hit : updated m false s.locked n ≡ false = rw (same, updated) refl in
            let absurd : false ≡ true = sym hit ∙ e in cc
        | inr apart ↦
            let miss : updated m false s.locked n ≡ s.locked n = rw (apart, updated) refl in
            let (u, there) = inv.owner n (sym miss ∙ e) in
            (
              u,
              updated_other t u gone s.phase (λ q.
                    let same : n ≡ m = inside_inj (sym there ∙ ap s.phase q ∙ holds) in
                    let absurd : true ≡ false = sym ((==_iff n m).1 same) ∙ apart in cc)
                  ∙ there,
            )
      ]
