-- ===== src/Api/Aws/Query.antt =====
-- The canonical query is one by the parameters, whatever the order of the map and of a key's values.
use backupgate.Prelude.{
  ◌≡◌, refl, sym, ap, ◌∙◌, subst, true, false, List, [], ◌∷◌, ◌++◌, map, arith, Bytes, bytes,
}
use backupgate.Sort.{Rearranged, same, skip, swap, chain, Rearranged-sym, IsWeakOrder}
use backupgate.Sort.Unique.{sort-Rearranged}
use backupgate.Api.Aws.{Library, str_less, aws_escape, query_parts, all_parts, canonical_query}
use backupgate.Storage.Shell.{join}

str_less_asym : (s t : Bytes) → str_less s t ≡ true → str_less t s ≡ false
unfolding str_less
str_less_asym [] [] h = cc
str_less_asym [] (b ∷ t) h = refl
str_less_asym (a ∷ s) [] h = cc
str_less_asym (a ∷ s) (b ∷ t) h = ground (arith, str_less_asym s t)

str_less_through :
    (s t u : Bytes) → str_less t s ≡ false → str_less u t ≡ false → str_less u s ≡ false
unfolding str_less
str_less_through [] t u h k = refl
str_less_through (a ∷ s) [] u h k = cc
str_less_through (a ∷ s) (b ∷ t) [] h k = cc
str_less_through (a ∷ s) (b ∷ t) (c ∷ u) h k = ground (arith, str_less_through s t u)

str_less_antisym : (s t : Bytes) → str_less s t ≡ false → str_less t s ≡ false → s ≡ t
unfolding str_less
str_less_antisym [] [] h k = refl
str_less_antisym [] (b ∷ t) h k = cc
str_less_antisym (a ∷ s) [] h k = cc
str_less_antisym (a ∷ s) (b ∷ t) h k = ground (arith, str_less_antisym s t)

str_less-IsWeakOrder : IsWeakOrder str_less
str_less-IsWeakOrder = record { asym = str_less_asym; through = str_less_through }

module _ {A B : Type 0} where
  Rearranged-map : (f : A → B) {l k : List A} → Rearranged l k → Rearranged (map f l) (map f k)
  Rearranged-map f (same l) = same (map f l)
  Rearranged-map f (skip x r) = skip (f x) (Rearranged-map f r)
  Rearranged-map f (swap x y l) = swap (f x) (f y) (map f l)
  Rearranged-map f (chain r s) = chain (Rearranged-map f r) (Rearranged-map f s)

module _ {A : Type 0} where
  Rearranged-append_left :
      (z : List A) {l k : List A} → Rearranged l k → Rearranged (z ++ l) (z ++ k)
  Rearranged-append_left [] r = r
  Rearranged-append_left (x ∷ z) r = skip x (Rearranged-append_left z r)

  Rearranged-append_right :
      (z : List A) {l k : List A} → Rearranged l k → Rearranged (l ++ z) (k ++ z)
  Rearranged-append_right z (same l) = same (l ++ z)
  Rearranged-append_right z (skip x r) = skip x (Rearranged-append_right z r)
  Rearranged-append_right z (swap x y l) = swap x y (l ++ z)
  Rearranged-append_right z (chain r s) =
      chain (Rearranged-append_right z r) (Rearranged-append_right z s)

-- The parameters of a query, one for each value of a key.
unfoldable pub parameters : List (Bytes × List Bytes) → List (Bytes × Bytes)
parameters [] = []
parameters (entry ∷ v) = map (λ val. (entry.0, val)) entry.1 ++ parameters v

map-append : {A B : Type 0} (f : A → B) (l k : List A) → map f (l ++ k) ≡ map f l ++ map f k
map-append f [] k = refl
map-append f (x ∷ l) k = ap (λ r. f x ∷ r) (map-append f l k)

map-map :
    {A B C : Type 0} (f : B → C) (g : A → B) (l : List A) → map f (map g l) ≡ map (λ x. f (g x)) l
map-map f g [] = refl
map-map f g (x ∷ l) = ap (λ r. f (g x) ∷ r) (map-map f g l)

module _ (lib : Library) where
  part_of : Bytes × Bytes → Bytes
  part_of p = aws_escape lib p.0 ++ (b'=' ∷ aws_escape lib p.1)

  all_parts-parameters :
      (v : List (Bytes × List Bytes)) → Rearranged (all_parts lib v) (map part_of (parameters v))
  unfolding all_parts parameters query_parts part_of
  all_parts-parameters [] = same []
  all_parts-parameters (entry ∷ v) =
      let sorted = lib.sorting.sort str_less entry.1 in
      let front : map part_of (map (λ val. (entry.0, val)) entry.1)
          ≡ query_parts lib entry.0 entry.1 =
        map-map part_of (λ val. (entry.0, val)) entry.1 in
      subst (λ l. Rearranged (query_parts lib entry.0 sorted ++ all_parts lib v) l)
        (ap (λ l. l ++ map part_of (parameters v)) (sym front)
          ∙ sym (map-append part_of (map (λ val. (entry.0, val)) entry.1) (parameters v)))
        (chain
          (Rearranged-append_right (all_parts lib v) (
            Rearranged-map (λ val. aws_escape lib entry.0 ++ (b'=' ∷ aws_escape lib val))
              (lib.sorting.rearranged str_less entry.1)))
          (Rearranged-append_left (query_parts lib entry.0 entry.1) (all_parts-parameters v)))

  -- Two queries with the same parameters, as often, in any order of the keys and of the values of a
  -- key, have one canonical query: neither the order of Go's map nor that of the URL changes a
  -- signature.
  pub canonical_query-Rearranged :
      (v v' : List (Bytes × List Bytes))
      → Rearranged (parameters v) (parameters v')
      → canonical_query lib v ≡ canonical_query lib v'
  unfolding canonical_query
  canonical_query-Rearranged v v' r = ap (join (bytes "&")) (
      sort-Rearranged str_less str_less-IsWeakOrder str_less_antisym lib.sorting (
        chain (all_parts-parameters v)
          (chain (Rearranged-map part_of r) (Rearranged-sym (all_parts-parameters v')))))
