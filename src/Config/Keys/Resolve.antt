-- ===== src/Config/Keys/Resolve.antt =====
-- `ResolveKeyConfig` keeps the matching rules.
use backupgate.Prelude.{
  suc, ◌≤◌, ◌≡◌, refl, sym, ap, ◌∙◌, subst, ◌≢◌, ◌⊎◌, inl, inr, true, false, none, some, List, [],
  ◌∷◌, append-nil, arith, dec_lt, Bool-cases, Option-cases, length, drop, drop_all, drop-cons,
  get_or-append_right, Bytes, str_eq, str_eq_sound, str_eq_complete, has_prefix_sound,
  has_prefix-append,
}
use backupgate.Sort.{
  SortSlice, Member, Rearranged-sym, Rearranged-Member, Member-All, IsSorted, IsWeakOrder,
}
use backupgate.Config.Types.{KeyConfig}
use backupgate.Config.Keys.{
  find_key, names, default_key, is_path_prefix, candidates, longer, first_prefix,
  resolve_key_config,
}
use backupgate.Config.Keys.Choice.{
  IsPathPrefix, Serves, Chosen, exact, by_prefix, by_default, find_key-Member, Member-find_key,
}

-- `isPathPrefix` decides the relation.
is_path_prefix_sound : (p key : Bytes) → is_path_prefix p key ≡ true → IsPathPrefix p key
unfolding is_path_prefix
is_path_prefix_sound p key h = (drop (length p) key, has_prefix_sound p key (ground arith), ends)
  where
    ends : (drop (length p) key ≡ []) ⊎ ((tail : Bytes) × (drop (length p) key ≡ b'/' ∷ tail))
    ends = elim (dec_lt (length p) (length key)) [
      | yes lt ↦ inr (
        drop (suc (length p)) key,
        drop-cons (length p) key 0 lt ∙ ap (λ b. b ∷ drop (suc (length p)) key) (ground arith),
      )
      | no le ↦ inl (drop_all (length p) key (omega arith))
    ]

is_path_prefix_complete : (p key : Bytes) → IsPathPrefix p key → is_path_prefix p key ≡ true
unfolding is_path_prefix
is_path_prefix_complete p key (rest, e, inl f) =
    ground (arith, has_prefix-append p rest, append-nil p)
is_path_prefix_complete p key (rest, e, inr (tail, f)) =
    ground (arith, has_prefix-append p rest, get_or-append_right p b'/' tail 0)

mem-candidates :
    (m : Bytes) (ks : List Bytes) → Member m (candidates ks) → Member m ks × (m ≢ default_key)
unfolding candidates
mem-candidates m [] h = absurd h
mem-candidates m (k ∷ ks) h = elim (Bool-cases (str_eq k default_key)) [
  | inl e ↦ let (there, other) = mem-candidates m ks (rw e at h) in (inr there, other)
  | inr e ↦ here (mem-candidates m ks) e (rw e at h)
]
  where
    here :
        (Member m (candidates ks) → Member m ks × (m ≢ default_key))
        → str_eq k default_key ≡ false
        → (m ≡ k) ⊎ Member m (candidates ks)
        → Member m (k ∷ ks) × (m ≢ default_key)
    here ih e (inl same) = (inl same, λ d. cc (str_eq_complete k default_key (sym same ∙ d)))
    here ih e (inr there) = (inr (ih there).0, (ih there).1)

candidates-mem :
    (m : Bytes) (ks : List Bytes) → Member m ks → m ≢ default_key → Member m (candidates ks)
unfolding candidates
candidates-mem m [] h other = absurd h
candidates-mem m (k ∷ ks) h other = elim (Bool-cases (str_eq k default_key)) [
  | inl e ↦ rw e (later (candidates-mem m ks) (str_eq_sound k default_key e) h)
  | inr e ↦ rw e (kept (candidates-mem m ks) h)
]
  where
    later :
        (Member m ks → m ≢ default_key → Member m (candidates ks))
        → k ≡ default_key
        → (m ≡ k) ⊎ Member m ks
        → Member m (candidates ks)
    later ih d (inl same) = absurd (other (same ∙ d))
    later ih d (inr there) = ih there other

    kept :
        (Member m ks → m ≢ default_key → Member m (candidates ks))
        → (m ≡ k) ⊎ Member m ks
        → (m ≡ k) ⊎ Member m (candidates ks)
    kept ih (inl same) = inl same
    kept ih (inr there) = inr (ih there other)

longer-IsWeakOrder : IsWeakOrder longer
longer-IsWeakOrder = record { asym = λ a b h. ground arith; through = λ a b c h k. ground arith }

-- The first path prefix in a list sorted by length is a longest one.
first_prefix-some :
    (key n : Bytes) (cs : List Bytes)
    → IsSorted longer cs
    → first_prefix key cs ≡ some n
    → Member n cs
      × (is_path_prefix n key ≡ true)
      × ((m : Bytes) → Member m cs → is_path_prefix m key ≡ true → length m ≤ length n)
unfolding first_prefix
first_prefix-some key n [] s e = cc
first_prefix-some key n (c ∷ cs) s e = elim (Bool-cases (is_path_prefix c key)) [
  | inl p ↦
      let same : c ≡ n = ground arith in
      (inl (sym same), subst (λ m. is_path_prefix m key ≡ true) same p, first same)
  | inr p ↦
      let (there, q, best) = first_prefix-some key n cs s.1 (rw p at e) in
      (inr there, q, later p best)
]
  where
    first :
        c ≡ n → (m : Bytes) → Member m (c ∷ cs) → is_path_prefix m key ≡ true → length m ≤ length n
    first same m (inl f) q = ground arith
    first same m (inr there) q = ground (arith, Member-All (λ y. longer y c ≡ false) cs s.0 m there)

    later :
        is_path_prefix c key ≡ false
        → ((m : Bytes) → Member m cs → is_path_prefix m key ≡ true → length m ≤ length n)
        → (m : Bytes) → Member m (c ∷ cs)
        → is_path_prefix m key ≡ true
        → length m ≤ length n
    later p best m (inl f) q = cc (ap (λ x. is_path_prefix x key) f)
    later p best m (inr there) q = best m there q

first_prefix-none :
    (key : Bytes) (cs : List Bytes)
    → first_prefix key cs ≡ none
    → (m : Bytes) → Member m cs
    → is_path_prefix m key ≡ false
unfolding first_prefix
first_prefix-none key [] e m h = absurd h
first_prefix-none key (c ∷ cs) e m (inl f) = ap (λ x. is_path_prefix x key) f ∙ ground arith
first_prefix-none key (c ∷ cs) e m (inr there) = first_prefix-none key cs (ground arith) m there

-- What the sorted candidates decide, for whatever `sort.Slice` does with equal lengths.
module _ (s : SortSlice Bytes) (ks : List Bytes) (key : Bytes) where
  sorted : List Bytes
  sorted = s.sort longer (candidates ks)

  Serves-sorted :
      (m : Bytes) → Member m ks → Serves key m → Member m sorted × (is_path_prefix m key ≡ true)
  unfolding sorted
  Serves-sorted m h (other, p) = (
    Rearranged-Member (Rearranged-sym (s.rearranged longer (candidates ks))) m
        (candidates-mem m ks h other),
    is_path_prefix_complete m key p,
  )

  Chosen-prefix : (n : Bytes) → ¬ Member key ks → first_prefix key sorted ≡ some n → Chosen ks key n
  unfolding sorted
  Chosen-prefix n fresh e =
      let (there, p, best) =
        first_prefix-some key n sorted (s.sorted longer (candidates ks) longer-IsWeakOrder) e in
      let (named, other) =
        mem-candidates n ks (Rearranged-Member (s.rearranged longer (candidates ks)) n there) in
      by_prefix fresh named (other, is_path_prefix_sound n key p)
        (λ m h v. best m (Serves-sorted m h v).0 (Serves-sorted m h v).1)

  Chosen-default : ¬ Member key ks → first_prefix key sorted ≡ none → Chosen ks key default_key
  unfolding sorted
  Chosen-default fresh e =
      by_default fresh
        (λ m h v.
          cc (first_prefix-none key sorted e m (Serves-sorted m h v).0, (Serves-sorted m h v).1))
        refl

-- `ResolveKeyConfig` returns the entry of the key that the matching rules choose, whatever the order
-- in which the map is iterated and equally long candidates are sorted.
pub resolve_key_config-Chosen :
    (s : SortSlice Bytes) (keys : List (Bytes × KeyConfig)) (key : Bytes)
    → (n : Bytes) × Chosen (names keys) key n × (resolve_key_config s keys key ≡ find_key n keys)
unfolding resolve_key_config sorted
resolve_key_config-Chosen s keys key = elim (Option-cases (find_key key keys)) [
  | inr (kc, found) ↦ (key, exact (find_key-Member key keys kc found) refl, ground arith)
  | inl missing ↦ elim (Option-cases (first_prefix key (sorted s (names keys) key))) [
    | inr (n, e) ↦ (n, Chosen-prefix s (names keys) key n (fresh missing) e, ground arith)
    | inl e ↦ (default_key, Chosen-default s (names keys) key (fresh missing) e, ground arith)
  ]
]
  where
    fresh : find_key key keys ≡ none → ¬ Member key (names keys)
    fresh missing h = let (v, found) = Member-find_key key keys h in cc

-- A configured key is served by its own entry.
pub resolve_key_config-exact :
    (s : SortSlice Bytes) (keys : List (Bytes × KeyConfig)) (key : Bytes) (k : KeyConfig)
    → find_key key keys ≡ some k
    → resolve_key_config s keys key ≡ some k
unfolding resolve_key_config
resolve_key_config-exact s keys key k h = rw (h, resolve_key_config)
