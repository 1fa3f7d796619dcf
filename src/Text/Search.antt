-- ===== src/Text/Search.antt =====
-- `indexOf` finds the first occurrence.
use backupgate.Prelude.{
  ℕ, zero, suc, ◌+◌, ◌≤◌, ◌<◌, ◌≡◌, refl, sym, ap, ◌∙◌, ◌⊎◌, inl, inr, true, false, none, some, [],
  ◌∷◌, arith, Bool-cases, length, drop, drop-nil, Bytes, has_prefix,
}
use backupgate.Text.{index_from, index_of}

-- `sub` stands at the index `i` of `s`.
abbrev pub OccursAt : Bytes → Bytes → ℕ → Type 0
OccursAt s sub i = has_prefix sub (drop i s) ≡ true

index_from-lem :
    (i : ℕ) (s sub : Bytes)
    → ((index_from i s sub ≡ none) × ((k : ℕ) → k ≤ length s → ¬ OccursAt s sub k))
      ⊎ ((k : ℕ) × (index_from i s sub ≡ some (i + k))
          × (k ≤ length s)
          × OccursAt s sub k
          × ((j : ℕ) → j < k → ¬ OccursAt s sub j))
unfolding index_from
index_from-lem i [] sub = elim (Bool-cases (has_prefix sub [])) [
  | inl p ↦ inr (0, rw p (ap some (omega arith)), omega arith, p, λ j h. absurd (omega arith))
  | inr p ↦ inl (rw p, λ k h o. cc (sym p ∙ ap (has_prefix sub) (sym (drop-nil k)) ∙ o))
]
index_from-lem i (c ∷ s) sub = elim (Bool-cases (has_prefix sub (c ∷ s))) [
  | inl p ↦ inr (0, rw p (ap some (omega arith)), omega arith, p, λ j h. absurd (omega arith))
  | inr p ↦ rw p (later (index_from-lem (i + 1) s sub) p)
]
  where
    here :
        (j : ℕ)
        → has_prefix sub (c ∷ s) ≡ false
        → ((k : ℕ) → j ≡ suc k → ¬ OccursAt s sub k)
        → ¬ OccursAt (c ∷ s) sub j
    here zero p rest o = cc
    here (suc j) p rest o = rest j refl o

    later :
        ((index_from (i + 1) s sub ≡ none) × ((k : ℕ) → k ≤ length s → ¬ OccursAt s sub k))
          ⊎ ((k : ℕ) × (index_from (i + 1) s sub ≡ some (i + 1 + k))
              × (k ≤ length s)
              × OccursAt s sub k
              × ((j : ℕ) → j < k → ¬ OccursAt s sub j))
        → has_prefix sub (c ∷ s) ≡ false
        → ((index_from (i + 1) s sub ≡ none)
            × ((k : ℕ) → k ≤ length (c ∷ s) → ¬ OccursAt (c ∷ s) sub k))
          ⊎ ((k : ℕ) × (index_from (i + 1) s sub ≡ some (i + k))
              × (k ≤ length (c ∷ s))
              × OccursAt (c ∷ s) sub k
              × ((j : ℕ) → j < k → ¬ OccursAt (c ∷ s) sub j))
    later (inl (e, no_place)) p = inl (e, λ k h. here k p (λ j f. no_place j (omega arith)))
    later (inr (k, e, le, o, first)) p = inr (
      suc k,
      e ∙ ap some (omega arith),
      omega arith,
      o,
      λ j h. here j p (λ m f. first m (omega arith)),
    )

-- `indexOf` returns -1 exactly where there is no occurrence, and otherwise the first one.
pub index_of-lem :
    (s sub : Bytes)
    → ((index_of s sub ≡ none) × ((k : ℕ) → k ≤ length s → ¬ OccursAt s sub k))
      ⊎ ((k : ℕ) × (index_of s sub ≡ some k)
          × (k ≤ length s)
          × OccursAt s sub k
          × ((j : ℕ) → j < k → ¬ OccursAt s sub j))
unfolding index_of
index_of-lem s sub = elim (index_from-lem 0 s sub) [
  | inl (e, no_place) ↦ inl (e, no_place)
  | inr (k, e, le, o, first) ↦ inr (k, e ∙ ap some (omega arith), le, o, first)
]
