-- ===== src/Sort.antt =====
-- What the program uses of Go's package sort: `sort.Slice`, a parameter with its documented contract,
-- and an insertion sort that shows that the contract can be met.
pub mod Unique
use backupgate.Prelude.{
  suc, ◌≡◌, refl, sym, ap, ◌∙◌, subst, ◌⊎◌, inl, inr, Bool, true, false, List, [], ◌∷◌, Bool-cases,
  length, All,
}

module _ {A : Type 0} where
  -- `x` is an element of the list.
  abbrev pub Member : A → List A → Type 0
  Member x [] = ⊥
  Member x (y ∷ ys) = (x ≡ y) ⊎ Member x ys

  -- The same elements, as often, in any order.
  pub data Rearranged : List A → List A → Type 0 where
    same : (l : List A) → Rearranged l l
    skip : (x : A) {l k : List A} → Rearranged l k → Rearranged (x ∷ l) (x ∷ k)
    swap : (x y : A) (l : List A) → Rearranged (x ∷ y ∷ l) (y ∷ x ∷ l)
    chain : {l k m : List A} → Rearranged l k → Rearranged k m → Rearranged l m

  pub Rearranged-sym : {l k : List A} → Rearranged l k → Rearranged k l
  Rearranged-sym (same l) = same l
  Rearranged-sym (skip x r) = skip x (Rearranged-sym r)
  Rearranged-sym (swap x y l) = swap y x l
  Rearranged-sym (chain r s) = chain (Rearranged-sym s) (Rearranged-sym r)

  pub Rearranged-Member : {l k : List A} → Rearranged l k → (x : A) → Member x l → Member x k
  Rearranged-Member (same l) x m = m
  Rearranged-Member (skip y r) x (inl e) = inl e
  Rearranged-Member (skip y r) x (inr m) = inr (Rearranged-Member r x m)
  Rearranged-Member (swap y z l) x (inl e) = inr (inl e)
  Rearranged-Member (swap y z l) x (inr (inl e)) = inl e
  Rearranged-Member (swap y z l) x (inr (inr m)) = inr (inr m)
  Rearranged-Member (chain r s) x m = Rearranged-Member s x (Rearranged-Member r x m)

  pub Rearranged-length : {l k : List A} → Rearranged l k → length l ≡ length k
  Rearranged-length (same l) = refl
  Rearranged-length (skip x r) = ap suc (Rearranged-length r)
  Rearranged-length (swap x y l) = refl
  Rearranged-length (chain r s) = Rearranged-length r ∙ Rearranged-length s

  pub All-Member : (P : A → Type 0) (l : List A) → ((x : A) → Member x l → P x) → All P l
  All-Member P [] h = tt
  All-Member P (x ∷ l) h = (h x (inl refl), All-Member P l (λ y m. h y (inr m)))

  pub Member-All : (P : A → Type 0) (l : List A) → All P l → (x : A) → Member x l → P x
  Member-All P [] h x m = elim m [ ]
  Member-All P (y ∷ l) h x (inl e) = subst P (sym e) h.0
  Member-All P (y ∷ l) h x (inr m) = Member-All P l h.1 x m

  pub Rearranged-All : (P : A → Type 0) {l k : List A} → Rearranged l k → All P l → All P k
  Rearranged-All P {l} {k} r h =
      All-Member P k (λ x m. Member-All P l h x (Rearranged-Member (Rearranged-sym r) x m))

  -- No element is less than one before it.
  abbrev pub IsSorted : (A → A → Bool) → List A → Type 0
  IsSorted less [] = Unit
  IsSorted less (x ∷ xs) = All (λ y. less y x ≡ false) xs × IsSorted less xs

  -- The strict weak orders that `less` has to describe.
  pub record IsWeakOrder (less : A → A → Bool) : Type 0 where
    pub asym : (a b : A) → less a b ≡ true → less b a ≡ false
    pub through : (a b c : A) → less b a ≡ false → less c b ≡ false → less c a ≡ false

-- `sort.Slice(x, less)`: the elements of `x`, rearranged and sorted. It need not be stable.
pub record SortSlice (A : Type 0) : Type 0 where
  pub sort : (A → A → Bool) → List A → List A
  pub rearranged : (less : A → A → Bool) (l : List A) → Rearranged (sort less l) l
  pub sorted : (less : A → A → Bool) (l : List A) → IsWeakOrder less → IsSorted less (sort less l)

module _ {A : Type 0} (less : A → A → Bool) where
  unfoldable pub insert : A → List A → List A
  insert x [] = x ∷ []
  insert x (y ∷ ys) = elim (less y x) [ true ↦ y ∷ insert x ys | false ↦ x ∷ y ∷ ys ]

  unfoldable pub insert_all : List A → List A
  insert_all [] = []
  insert_all (x ∷ xs) = insert x (insert_all xs)

  insert-Rearranged : (x : A) (l : List A) → Rearranged (insert x l) (x ∷ l)
  unfolding insert
  insert-Rearranged x [] = same (x ∷ [])
  insert-Rearranged x (y ∷ ys) =
      elim (less y x)
        as (λ b. Rearranged (elim b [ true ↦ y ∷ insert x ys | false ↦ x ∷ y ∷ ys ]) (x ∷ y ∷ ys)) [
          | true ↦ chain (skip y (insert-Rearranged x ys)) (swap y x ys)
          | false ↦ same (x ∷ y ∷ ys)
        ]

  pub insert_all-Rearranged : (l : List A) → Rearranged (insert_all l) l
  unfolding insert_all
  insert_all-Rearranged [] = same []
  insert_all-Rearranged (x ∷ xs) =
      chain (insert-Rearranged x (insert_all xs)) (skip x (insert_all-Rearranged xs))

  All-insert : (P : A → Type 0) (x : A) (l : List A) → P x → All P l → All P (insert x l)
  All-insert P x l p h = Rearranged-All P (Rearranged-sym (insert-Rearranged x l)) (p, h)

  All-through :
      (x y : A) (l : List A)
      → IsWeakOrder less
      → less y x ≡ false
      → All (λ z. less z y ≡ false) l
      → All (λ z. less z x ≡ false) l
  All-through x y [] w e h = tt
  All-through x y (z ∷ l) w e h = (w.through x y z e h.0, All-through x y l w e h.1)

  insert-IsSorted :
      (x : A) (l : List A) → IsWeakOrder less → IsSorted less l → IsSorted less (insert x l)
  unfolding insert
  insert-IsSorted x [] w h = (tt, tt)
  insert-IsSorted x (y ∷ ys) w h = elim (Bool-cases (less y x)) [
    | inl e ↦
        chosen e
          (All-insert (λ z. less z y ≡ false) x ys (w.asym y x e) h.0, insert-IsSorted x ys w h.1)
    | inr e ↦ chosen e ((e, All-through x y ys w e h.0), h)
  ]
    where
      chosen :
          {b : Bool}
          → less y x ≡ b
          → IsSorted less (elim b [ true ↦ y ∷ insert x ys | false ↦ x ∷ y ∷ ys ])
          → IsSorted less (elim (less y x) [ true ↦ y ∷ insert x ys | false ↦ x ∷ y ∷ ys ])
      chosen e s =
          subst (λ c. IsSorted less (elim c [ true ↦ y ∷ insert x ys | false ↦ x ∷ y ∷ ys ]))
            (sym e) s

  pub insert_all-IsSorted : (l : List A) → IsWeakOrder less → IsSorted less (insert_all l)
  unfolding insert_all
  insert_all-IsSorted [] w = tt
  insert_all-IsSorted (x ∷ xs) w = insert-IsSorted x (insert_all xs) w (insert_all-IsSorted xs w)

unfoldable pub insertion_sort : (A : Type 0) → SortSlice A
insertion_sort A = record {
  sort = λ less l. insert_all less l;
  rearranged = λ less l. insert_all-Rearranged less l;
  sorted = λ less l w. insert_all-IsSorted less l w;
}
