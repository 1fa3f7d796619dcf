-- ===== src/Api/KeyLock/Stores.antt =====
-- LoadOrStore of the locks of the keys, and what it keeps.
use backupgate.Prelude.{
  ℕ, ◌≡◌, refl, sym, ap, ◌∙◌, ◌⊎◌, inl, inr, true, false, Option, none, some, List, ◌∷◌, arith,
  Bool-cases, Bytes, str_eq, str_eq_refl, str_eq_sound,
}
use backupgate.Config.Keys.{find_key}
use backupgate.Api.KeyLock.{arriving, waiting, inside, System, load_or_store, updated, looked}
use backupgate.Api.KeyLock.Invariant.{Has, Inv, updated_other, phase-cases}

-- What LoadOrStore of the key `key` makes of the map `mu`, with the new mutex `fresh`.
record Loads (key : Bytes) (fresh : ℕ) (mu : List (Bytes × ℕ)) (m : ℕ) (mu' : List (Bytes × ℕ))
    : Type 0 where
  has : find_key key mu' ≡ some m
  keeps : (k : Bytes) (n : ℕ) → find_key k mu ≡ some n → find_key k mu' ≡ some n
  adds :
      (k : Bytes) (n : ℕ)
      → find_key k mu' ≡ some n
      → (find_key k mu ≡ some n) ⊎ ((k ≡ key) × (n ≡ fresh))

load_or_store-Loads :
    (key : Bytes) (fresh : ℕ) (mu : List (Bytes × ℕ))
    → Loads key fresh mu (load_or_store key fresh mu).0 (load_or_store key fresh mu).1
unfolding load_or_store find_key
load_or_store-Loads key fresh mu = go (find_key key mu) refl
  where
    go :
        (o : Option ℕ)
        → find_key key mu ≡ o
        → let x = elim o as (λ _. ℕ × List (Bytes × ℕ)) [
          | some old ↦ (old, mu)
          | none ↦ (fresh, (key, fresh) ∷ mu)
        ] in
          Loads key fresh mu x.0 x.1
    go (some old) e = record { has = e; keeps = λ k n f. f; adds = λ k n f. inl f }
    go none e = record {
      has = rw (str_eq_refl key, find_key) refl;
      keeps = λ k n f. pushed k n f (Bool-cases (str_eq key k));
      adds = λ k n f. found k n f (Bool-cases (str_eq key k));
    }
      where
        pushed :
            (k : Bytes) (n : ℕ)
            → find_key k mu ≡ some n
            → (str_eq key k ≡ true) ⊎ (str_eq key k ≡ false)
            → find_key k ((key, fresh) ∷ mu) ≡ some n
        pushed k n f (inr apart) = rw (apart, find_key) f
        pushed k n f (inl same) =
            let absurd : none ≡ some n =
              sym e ∙ ap (λ x. find_key x mu) (str_eq_sound key k same) ∙ f in
            cc

        found :
            (k : Bytes) (n : ℕ)
            → find_key k ((key, fresh) ∷ mu) ≡ some n
            → (str_eq key k ≡ true) ⊎ (str_eq key k ≡ false)
            → (find_key k mu ≡ some n) ⊎ ((k ≡ key) × (n ≡ fresh))
        found k n f (inr apart) =
            let miss : find_key k ((key, fresh) ∷ mu) ≡ find_key k mu = rw (apart, find_key) refl in
            inl (sym miss ∙ f)
        found k n f (inl same) =
            let hit : find_key k ((key, fresh) ∷ mu) ≡ some fresh = rw (same, find_key) refl in
            let is_fresh : some n ≡ some fresh = sym f ∙ hit in
            inr (sym (str_eq_sound key k same), cc)

module _ (key_of : ℕ → Bytes) where
  pub looked-Inv :
      (t : ℕ) (s : System) → Inv key_of s → s.phase t ≡ arriving → Inv key_of (looked key_of t s)
  unfolding looked
  looked-Inv t s inv arrives = record {
    stored = λ u n has. kept u n has;
    old = λ k n e. elim (loads.adds k n e) [
      | inl there ↦ omega (arith, inv.old k n there)
      | inr (same, is_fresh) ↦ omega (arith, is_fresh)
    ];
    one_key = λ k k' n e f. single k k' n (loads.adds k n e) (loads.adds k' n f);
    one_inside = λ u v n e f. inv.one_inside u v n (before u n e) (before v n f);
    closed = λ u n e. inv.closed u n (before u n e);
    owner = λ n e. owned n e;
  }
    where
      m : ℕ
      m = (load_or_store (key_of t) s.fresh s.key_mu).0

      mutexes : List (Bytes × ℕ)
      mutexes = (load_or_store (key_of t) s.fresh s.key_mu).1

      loads : Loads (key_of t) s.fresh s.key_mu m mutexes
      loads = load_or_store-Loads (key_of t) s.fresh s.key_mu

      before : (u n : ℕ) → updated t (waiting m) s.phase u ≡ inside n → s.phase u ≡ inside n
      before u n e = elim (phase-cases key_of s.phase t u (waiting m) (inside n) e) [
        | inl (same, clash) ↦ cc
        | inr (apart, there) ↦ there
      ]

      waiting_inj : {n : ℕ} → waiting m ≡ waiting n → m ≡ n
      waiting_inj e = cc

      kept : (u n : ℕ) → Has key_of (looked key_of t s) u n → find_key (key_of u) mutexes ≡ some n
      kept u n (inl e) = elim (phase-cases key_of s.phase t u (waiting m) (waiting n) e) [
        | inl (same, mutex) ↦
            ap (λ x. find_key (key_of x) mutexes) same ∙ loads.has ∙ ap some (waiting_inj mutex)
        | inr (apart, there) ↦ loads.keeps (key_of u) n (inv.stored u n (inl there))
      ]
      kept u n (inr e) = loads.keeps (key_of u) n (inv.stored u n (inr (before u n e)))

      single :
          (k k' : Bytes) (n : ℕ)
          → (find_key k s.key_mu ≡ some n) ⊎ ((k ≡ key_of t) × (n ≡ s.fresh))
          → (find_key k' s.key_mu ≡ some n) ⊎ ((k' ≡ key_of t) × (n ≡ s.fresh))
          → k ≡ k'
      single k k' n (inl a) (inl b) = inv.one_key k k' n a b
      single k k' n (inl a) (inr (b, x)) = absurd (omega (arith, inv.old k n a, x))
      single k k' n (inr (a, x)) (inl b) = absurd (omega (arith, inv.old k' n b, x))
      single k k' n (inr (a, x)) (inr (b, y)) = a ∙ sym b

      owned : (n : ℕ) → s.locked n ≡ true → (u : ℕ) × (updated t (waiting m) s.phase u ≡ inside n)
      owned n e =
          let (u, there) = inv.owner n e in
          (
            u,
            updated_other t u (waiting m) s.phase (λ q.
                  let clash : arriving ≡ inside n = sym arrives ∙ ap s.phase (sym q) ∙ there in cc)
                ∙ there,
          )
