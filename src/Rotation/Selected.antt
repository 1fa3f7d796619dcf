-- ===== src/Rotation/Selected.antt =====
-- Which entries the policy selects.
use backupgate.Prelude.{
  ℕ, zero, suc, ◌+◌, ◌-◌, ◌<◌, min, ◌≡◌, sym, ap, ◌∙◌, subst, ◌⊎◌, inl, inr, Bool, true, false,
  ◌&&◌, some, List, [], ◌∷◌, ◌++◌, arith, dec_le, leb, le→leb, Bool-cases, Option-cases, length,
  take, drop, take-append-drop, length-take, drop-nil, All,
}
use backupgate.Prelude.Int.{ℤ, pos, ltb_ℤ}
use backupgate.Sort.{
  Member, Rearranged, Rearranged-sym, Rearranged-Member, Rearranged-length, IsSorted, IsWeakOrder,
}
use backupgate.Storage.Backend.{Entry}
use backupgate.Rotation.{
  Policy, Surroundings, sub_time, parse_timestamp, timestamp, timestamped, newer, is_excess,
  select_from, select_for_deletion, to_delete,
}

module _ (env : Surroundings) where
  -- A file whose name has a timestamp.
  abbrev pub IsBackup : Entry → Type 0
  IsBackup e = (e.is_dir ≡ false) × ((ts : ℤ) × (parse_timestamp env e.name ≡ some ts))

  -- The file is older than the policy's age.
  abbrev pub is_too_old : Policy → ℤ → Entry → Bool
  is_too_old policy now e =
      ltb_ℤ (pos 0) policy.max_age && ltb_ℤ policy.max_age (sub_time now (timestamp env e))

  mem-timestamped :
      (e : Entry) (es : List Entry) → Member e (timestamped env es) → Member e es × IsBackup e
  unfolding timestamped
  mem-timestamped e [] h = absurd h
  mem-timestamped e (f ∷ fs) h = elim (Bool-cases f.is_dir) [
    | inl d ↦ let (m, b) = mem-timestamped e fs (rw d at h) in (inr m, b)
    | inr d ↦ elim (Option-cases (parse_timestamp env f.name)) [
      | inl p ↦ let (m, b) = mem-timestamped e fs (rw (d, p) at h) in (inr m, b)
      | inr (ts, p) ↦ here (mem-timestamped e fs) d ts p (rw (d, p) at h)
    ]
  ]
    where
      here :
          (Member e (timestamped env fs) → Member e fs × IsBackup e)
          → f.is_dir ≡ false
          → (ts : ℤ) → parse_timestamp env f.name ≡ some ts
          → (e ≡ f) ⊎ Member e (timestamped env fs)
          → Member e (f ∷ fs) × IsBackup e
      here ih d ts p (inl same) = (inl same, subst IsBackup (sym same) (d, (ts, p)))
      here ih d ts p (inr m) = (inr (ih m).0, (ih m).1)

  mem-select_from :
      (policy : Policy) (now : ℤ) (i : ℕ) (e : Entry) (fs : List Entry)
      → Member e (select_from env policy now i fs)
      → Member e fs × ((j : ℕ) × (is_excess env policy now j e ≡ true))
  unfolding select_from
  mem-select_from policy now i e [] h = absurd h
  mem-select_from policy now i e (f ∷ fs) h = elim (Bool-cases (is_excess env policy now i f)) [
    | inl x ↦ here (mem-select_from policy now (i + 1) e fs) x (rw x at h)
    | inr x ↦ let (m, r) = mem-select_from policy now (i + 1) e fs (rw x at h) in (inr m, r)
  ]
    where
      here :
          (Member e (select_from env policy now (i + 1) fs)
            → Member e fs × ((j : ℕ) × (is_excess env policy now j e ≡ true)))
          → is_excess env policy now i f ≡ true
          → (e ≡ f) ⊎ Member e (select_from env policy now (i + 1) fs)
          → Member e (f ∷ fs) × ((j : ℕ) × (is_excess env policy now j e ≡ true))
      here ih x (inl same) = (inl same, (i, ap (is_excess env policy now i) same ∙ x))
      here ih x (inr m) = (inr (ih m).0, (ih m).1)

  -- Only files of the directory whose names have a timestamp are ever selected, and each of them
  -- because it is too old or because the policy has a count.
  pub to_delete-IsBackup :
      (policy : Policy) (now : ℤ) (es : List Entry) (e : Entry)
      → Member e (to_delete env policy now es)
      → Member e es
        × IsBackup e
        × ((is_too_old policy now e ≡ true) ⊎ (ltb_ℤ (pos 0) policy.max_count ≡ true))
  unfolding to_delete select_for_deletion is_excess
  to_delete-IsBackup policy now es e h =
      let (m, (j, x)) = mem-select_from policy now 0 e _ h in
      let (there, backup) =
        mem-timestamped e es
          (Rearranged-Member (env.slices.rearranged (newer env) (timestamped env es)) e m) in
      (there, backup, ground arith)

  is_excess-too_old :
      (policy : Policy) (now : ℤ) (i : ℕ) (e : Entry)
      → is_too_old policy now e ≡ true
      → is_excess env policy now i e ≡ true
  unfolding is_excess
  is_excess-too_old policy now i e old = ground arith

  select_from-too_old :
      (policy : Policy) (now : ℤ) (i : ℕ) (e : Entry) (fs : List Entry)
      → is_too_old policy now e ≡ true
      → Member e fs
      → Member e (select_from env policy now i fs)
  unfolding select_from
  select_from-too_old policy now i e [] old h = absurd h
  select_from-too_old policy now i e (f ∷ fs) old (inl same) =
      rw (is_excess-too_old policy now i f (subst (λ x. is_too_old policy now x ≡ true) same old))
        (inl same)
  select_from-too_old policy now i e (f ∷ fs) old (inr m) =
      elim (Bool-cases (is_excess env policy now i f)) [
        | inl x ↦ rw x (inr (select_from-too_old policy now (i + 1) e fs old m))
        | inr x ↦ rw x (select_from-too_old policy now (i + 1) e fs old m)
      ]

  timestamped-mem :
      (e : Entry) (es : List Entry) → Member e es → IsBackup e → Member e (timestamped env es)
  unfolding timestamped
  timestamped-mem e [] h b = absurd h
  timestamped-mem e (f ∷ fs) (inl same) b =
      let (file, (ts, p)) = subst IsBackup same b in rw (file, p) (inl same)
  timestamped-mem e (f ∷ fs) (inr m) b = elim (Bool-cases f.is_dir) [
    | inl d ↦ rw d (timestamped-mem e fs m b)
    | inr d ↦ elim (Option-cases (parse_timestamp env f.name)) [
      | inl p ↦ rw (d, p) (timestamped-mem e fs m b)
      | inr (ts, p) ↦ rw (d, p) (inr (timestamped-mem e fs m b))
    ]
  ]

  -- Every backup of the directory that is older than the age of the policy is selected.
  pub to_delete-too_old :
      (policy : Policy) (now : ℤ) (es : List Entry) (e : Entry)
      → Member e es
      → IsBackup e
      → is_too_old policy now e ≡ true
      → Member e (to_delete env policy now es)
  unfolding to_delete select_for_deletion
  to_delete-too_old policy now es e m b old = select_from-too_old policy now 0 e _ old (
      Rearranged-Member (Rearranged-sym (env.slices.rearranged (newer env) (timestamped env es))) e
        (timestamped-mem e es m b))

  newer-IsWeakOrder : IsWeakOrder (newer env)
  unfolding newer
  newer-IsWeakOrder = record { asym = λ a b h. ground arith; through = λ a b c h k. ground arith }

  is_excess-count :
      (policy : Policy) (now : ℤ) (c i : ℕ) (e : Entry)
      → policy.max_count ≡ pos c
      → 0 < c
      → policy.max_age ≡ pos 0
      → is_excess env policy now i e ≡ leb c i
  unfolding is_excess
  is_excess-count policy now c i e count some_count age = ground arith

  select_from-drop :
      (policy : Policy) (now : ℤ) (c i : ℕ) (fs : List Entry)
      → policy.max_count ≡ pos c
      → 0 < c
      → policy.max_age ≡ pos 0
      → select_from env policy now i fs ≡ drop (c - i) fs
  unfolding select_from
  select_from-drop policy now c i [] count some_count age = sym (drop-nil (c - i))
  select_from-drop policy now c i (f ∷ fs) count some_count age = elim (dec_le c i) [
    | yes le ↦
        rw (is_excess-count policy now c i f count some_count age, le→leb c i le)
          (ap (λ l. f ∷ l)
              (select_from-drop policy now c (i + 1) fs count some_count age
                ∙ ap (λ k. drop k fs) {x = c - (i + 1)} {y = 0} (omega arith))
            ∙ ap (λ k. drop k (f ∷ fs)) {x = 0} {y = c - i} (omega arith))
    | no gt ↦
        rw (is_excess-count policy now c i f count some_count age, not_leb (omega arith))
          (select_from-drop policy now c (i + 1) fs count some_count age
            ∙ ap (λ k. drop k (f ∷ fs)) {x = suc (c - (i + 1))} {y = c - i} (omega arith))
  ]
    where
      not_leb : i < c → leb c i ≡ false
      not_leb h = ground arith

  -- In a sorted list nothing behind a place is newer than what stands before it.
  sorted-split :
      (n : ℕ) (fs : List Entry)
      → IsSorted (newer env) fs
      → All (λ d. All (λ k. newer env d k ≡ false) (take n fs)) (drop n fs)
  sorted-split zero [] s = tt
  sorted-split zero (f ∷ fs) s = (tt, sorted-split zero fs s.1)
  sorted-split (suc n) [] s = tt
  sorted-split (suc n) (f ∷ fs) s = both (drop n fs) (All-drop n fs s.0) (sorted-split n fs s.1)
    where
      All-drop :
          (m : ℕ) (xs : List Entry)
          → All (λ d. newer env d f ≡ false) xs
          → All (λ d. newer env d f ≡ false) (drop m xs)
      All-drop zero xs h = h
      All-drop (suc m) [] h = tt
      All-drop (suc m) (x ∷ xs) h = All-drop m xs h.1

      both :
          (ds : List Entry)
          → All (λ d. newer env d f ≡ false) ds
          → All (λ d. All (λ k. newer env d k ≡ false) (take n fs)) ds
          → All (λ d. All (λ k. newer env d k ≡ false) (f ∷ take n fs)) ds
      both [] h k = tt
      both (d ∷ ds) h k = ((h.0, k.0), both ds h.1 k.1)

  -- A policy with a count `c` and no age splits the backups of the directory into those that are kept
  -- and those that are deleted: `c` are kept, or all if there are fewer, and no deleted one is newer
  -- than one that is kept.
  pub to_delete-count :
      (policy : Policy) (now : ℤ) (c : ℕ) (es : List Entry)
      → policy.max_count ≡ pos c
      → 0 < c
      → policy.max_age ≡ pos 0
      → (kept : List Entry) × Rearranged (kept ++ to_delete env policy now es) (timestamped env es)
        × (length kept ≡ min c (length (timestamped env es)))
        × All
            (λ d. All (λ k. ltb_ℤ (timestamp env k) (timestamp env d) ≡ false) kept)
            (to_delete env policy now es)
  unfolding to_delete select_for_deletion newer
  to_delete-count policy now c es count some_count age =
      let sorted = env.slices.sort (newer env) (timestamped env es) in
      let moved = env.slices.rearranged (newer env) (timestamped env es) in
      let gone : select_from env policy now 0 sorted ≡ drop c sorted =
        select_from-drop policy now c 0 sorted count some_count age
        ∙ ap (λ k. drop k sorted) {x = c - 0} {y = c} (omega arith) in
      (
        take c sorted,
        subst (λ l. Rearranged (take c sorted ++ l) (timestamped env es)) (sym gone)
            (subst (λ l. Rearranged l (timestamped env es)) (sym (take-append-drop c sorted))
              moved),
        omega (arith, length-take c sorted, Rearranged-length moved),
        subst (λ l. All (λ d. All (λ k. newer env d k ≡ false) (take c sorted)) l) (sym gone)
            (sorted-split c sorted
              (env.slices.sorted (newer env) (timestamped env es) newer-IsWeakOrder)),
      )
