-- ===== src/Sort/Unique.antt =====
-- Where elements that are not less than each other are equal, a sorted list is one by its elements.
use backupgate.Prelude.{
  ◌≡◌, refl, sym, ap, ◌∙◌, inl, inr, Bool, true, false, List, [], ◌∷◌, arith, Bool-cases, All,
}
use backupgate.Sort.{
  Rearranged, same, skip, swap, chain, Rearranged-sym, IsSorted, IsWeakOrder, SortSlice, insert,
  insert_all,
}

module _ {A : Type 0} (less : A → A → Bool) (weak : IsWeakOrder less)
    (antisym : (a b : A) → less a b ≡ false → less b a ≡ false → a ≡ b) where
  transitive : (a b c : A) → less a b ≡ true → less b c ≡ true → less a c ≡ true
  transitive a b c h k = elim (Bool-cases (less a c)) [
    | inl e ↦ e
    | inr e ↦ let absurd : true ≡ false = sym h ∙ weak.through b c a (weak.asym b c k) e in cc
  ]

  insert_comm :
      (x y : A) (l : List A) → insert less x (insert less y l) ≡ insert less y (insert less x l)
  unfolding insert
  insert_comm x y [] = ground (arith, weak.asym x y, weak.asym y x, antisym x y)
  insert_comm x y (z ∷ l) = ground (
    arith,
    insert_comm x y l,
    weak.asym x y,
    weak.asym y x,
    weak.through x y z,
    weak.through y x z,
    antisym x y,
  )

  Rearranged-insert_all : {l k : List A} → Rearranged l k → insert_all less l ≡ insert_all less k
  unfolding insert_all
  Rearranged-insert_all (same l) = refl
  Rearranged-insert_all (skip x r) = ap (insert less x) (Rearranged-insert_all r)
  Rearranged-insert_all (swap x y l) = insert_comm x y (insert_all less l)
  Rearranged-insert_all (chain r s) = Rearranged-insert_all r ∙ Rearranged-insert_all s

  insert-front : (x : A) (l : List A) → All (λ y. less y x ≡ false) l → insert less x l ≡ x ∷ l
  unfolding insert
  insert-front x [] h = refl
  insert-front x (y ∷ l) h = rw (h.0, insert) refl

  insert_all-sorted : (l : List A) → IsSorted less l → insert_all less l ≡ l
  unfolding insert_all
  insert_all-sorted [] h = refl
  insert_all-sorted (x ∷ l) h = ap (insert less x) (insert_all-sorted l h.1) ∙ insert-front x l h.0

  -- Two sorted lists of the same elements are equal.
  pub IsSorted-unique : {l k : List A} → IsSorted less l → IsSorted less k → Rearranged l k → l ≡ k
  IsSorted-unique {l} {k} s t r =
      sym (insert_all-sorted l s) ∙ Rearranged-insert_all r ∙ insert_all-sorted k t

  -- The sort of a list is one by its elements.
  pub sort-Rearranged :
      (sorting : SortSlice A) {l k : List A}
      → Rearranged l k
      → sorting.sort less l ≡ sorting.sort less k
  sort-Rearranged sorting {l} {k} r =
      IsSorted-unique (sorting.sorted less l weak) (sorting.sorted less k weak)
        (chain (sorting.rearranged less l) (chain r (Rearranged-sym (sorting.rearranged less k))))
