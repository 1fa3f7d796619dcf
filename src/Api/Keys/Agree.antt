-- ===== src/Api/Keys/Agree.antt =====
-- The chain that authenticates a key and the configuration that serves it belong to one entry.
use backupgate.Prelude.{
  ◌≤◌, ◌≡◌, refl, sym, ap, ◌∙◌, subst, ◌≢◌, ◌⊎◌, inl, inr, Bool, true, ◌||◌, none, List, [], ◌∷◌,
  ◌++◌, append-nil, append_assoc, arith, ltb, Bool-cases, Option-cases, length, drop, Bytes, bytes,
  str_eq, str_eq_sound, str_eq_complete, has_prefix, has_prefix_sound, has_prefix-append,
}
use backupgate.Sort.{SortSlice, Member}
use backupgate.Config.Types.{KeyConfig}
use backupgate.Config.Keys.{find_key, default_key, names, resolve_key_config}
use backupgate.Config.Keys.Choice.{
  IsPathPrefix, Serves, Chosen, exact, by_prefix, by_default, Chosen-unique, find_key-Member,
  Member-find_key,
}
use backupgate.Config.Keys.Resolve.{resolve_key_config-Chosen}
use backupgate.Api.Keys.{best_candidate, auth_chain}

abbrev is_prefix : Bytes → Bytes → Bool
is_prefix key candidate = str_eq key candidate || has_prefix (candidate ++ bytes "/") key

is_prefix_sound : (key c : Bytes) → is_prefix key c ≡ true → IsPathPrefix c key
is_prefix_sound key c h = elim (Bool-cases (str_eq key c)) [
  | inl e ↦ ([], str_eq_sound key c e ∙ sym (append-nil c), inl refl)
  | inr e ↦ (
    b'/' ∷ drop (length (c ++ bytes "/")) key,
    has_prefix_sound (c ++ bytes "/") key (ground arith) ∙ append_assoc c (bytes "/") _,
    inr (_, refl),
  )
]

is_prefix_complete : (key c : Bytes) → IsPathPrefix c key → is_prefix key c ≡ true
is_prefix_complete key c (rest, e, inl f) = ground (arith, str_eq_complete key c, append-nil c)
is_prefix_complete key c (rest, e, inr (tail, f)) =
    ground (arith, has_prefix-append (c ++ bytes "/") tail, append_assoc c (bytes "/") tail)

-- What the loop of `authChain` ends with.
record Longest (key best : Bytes) (ks : List Bytes) (b : Bytes) : Type 0 where
  found : (b ≡ best) ⊎ (Member b ks × Serves key b)
  grown : length best ≤ length b
  longest : (m : Bytes) → Member m ks → Serves key m → length m ≤ length b

best_candidate-cons :
    (key best c : Bytes) (ks : List Bytes)
    → (best_candidate key best (c ∷ ks) ≡ best_candidate key best ks
        × (Serves key c → length c ≤ length best))
      ⊎ (best_candidate key best (c ∷ ks) ≡ best_candidate key c ks
          × Serves key c
          × (length best ≤ length c))
unfolding best_candidate
best_candidate-cons key best c ks = elim (Bool-cases (str_eq c default_key)) [
  | inl d ↦ inl (rw d, λ s. absurd (s.0 (str_eq_sound c default_key d)))
  | inr d ↦ elim (Bool-cases (is_prefix key c)) [
    | inl p ↦ elim (Bool-cases (ltb (length best) (length c))) [
      | inl l ↦ inr (
        rw (d, p, l),
        ((λ e. cc (str_eq_complete c default_key e)), is_prefix_sound key c p),
        ground arith,
      )
      | inr l ↦ inl (rw (d, p, l), λ _. ground arith)
    ]
    | inr p ↦ inl (rw (d, p), λ s. cc (is_prefix_complete key c s.1))
  ]
]

-- A candidate that is not taken.
Longest-passed :
    (key best c : Bytes) (ks : List Bytes) (b : Bytes)
    → (Serves key c → length c ≤ length best)
    → Longest key best ks b
    → Longest key best (c ∷ ks) b
Longest-passed key best c ks b small r = record {
  found = found r.found;
  grown = r.grown;
  longest = longest;
}
  where
    found :
        (b ≡ best) ⊎ (Member b ks × Serves key b) → (b ≡ best) ⊎ (Member b (c ∷ ks) × Serves key b)
    found (inl e) = inl e
    found (inr (m, s)) = inr (inr m, s)

    longest : (m : Bytes) → Member m (c ∷ ks) → Serves key m → length m ≤ length b
    longest m (inl e) s = omega (arith, small (subst (Serves key) e s), r.grown, ap length e)
    longest m (inr there) s = r.longest m there s

-- A candidate that is taken.
Longest-taken :
    (key best c : Bytes) (ks : List Bytes) (b : Bytes)
    → Serves key c
    → length best ≤ length c
    → Longest key c ks b
    → Longest key best (c ∷ ks) b
Longest-taken key best c ks b serves le r = record {
  found = found r.found;
  grown = omega (arith, r.grown);
  longest = longest;
}
  where
    found : (b ≡ c) ⊎ (Member b ks × Serves key b) → (b ≡ best) ⊎ (Member b (c ∷ ks) × Serves key b)
    found (inl e) = inr (inl e, subst (Serves key) (sym e) serves)
    found (inr (m, s)) = inr (inr m, s)

    longest : (m : Bytes) → Member m (c ∷ ks) → Serves key m → length m ≤ length b
    longest m (inl e) s = omega (arith, r.grown, ap length e)
    longest m (inr there) s = r.longest m there s

best_candidate-Longest :
    (key best : Bytes) (ks : List Bytes) → Longest key best ks (best_candidate key best ks)
unfolding best_candidate
best_candidate-Longest key best [] = record {
  found = inl refl;
  grown = omega arith;
  longest = λ m h. absurd h;
}
best_candidate-Longest key best (c ∷ ks) = elim (best_candidate-cons key best c ks) [
  | inl (e, small) ↦
      subst (Longest key best (c ∷ ks)) (sym e)
        (Longest-passed key best c ks _ small (best_candidate-Longest key best ks))
  | inr (e, serves, le) ↦
      subst (Longest key best (c ∷ ks)) (sym e)
        (Longest-taken key best c ks _ serves le (best_candidate-Longest key c ks))
]

nil_of_short : (m : Bytes) → length m ≤ 0 → m ≡ []
nil_of_short [] h = refl
nil_of_short (b ∷ m) h = absurd (omega arith)

-- `authChain` returns the chain of the key that the matching rules of the configuration choose, if
-- no configured key is empty.
pub auth_chain-Chosen {ℓ} :
    {C : Type ℓ} (auths : List (Bytes × C)) (key : Bytes)
    → ¬ Member [] (names auths)
    → (n : Bytes) × Chosen (names auths) key n × (auth_chain auths key ≡ find_key n auths)
unfolding auth_chain
auth_chain-Chosen auths key named = elim (Option-cases (find_key key auths)) [
  | inr (chain, found) ↦
      (key, exact (find_key-Member key auths chain found) refl, rw (found, auth_chain))
  | inl missing ↦
      let (n, chosen, e) =
        by_best (fresh missing) (best_candidate key [] (names auths))
          (best_candidate-Longest key [] (names auths)) in
      (n, chosen, rw (missing, auth_chain) e)
]
  where
    fresh : find_key key auths ≡ none → ¬ Member key (names auths)
    fresh missing h = let (v, found) = Member-find_key key auths h in cc

    by_best :
        ¬ Member key (names auths)
        → (b : Bytes) → Longest key [] (names auths) b
        → (n : Bytes) × Chosen (names auths) key n
          × ((elim b [ [] ↦ find_key default_key auths | c ∷ cs ↦ find_key (c ∷ cs) auths ])
              ≡ find_key n auths)
    by_best new [] r = (
      default_key,
      by_default new
          (λ m h s.
            named (subst (λ x. Member x (names auths)) (nil_of_short m (r.longest m h s)) h))
          refl,
      refl,
    )
    by_best new (b ∷ bs) r = (b ∷ bs, chosen r.found, refl)
      where
        chosen :
            ((b ∷ bs) ≡ []) ⊎ (Member (b ∷ bs) (names auths) × Serves key (b ∷ bs))
            → Chosen (names auths) key (b ∷ bs)
        chosen (inl e) = cc
        chosen (inr (h, s)) = by_prefix new h s r.longest

-- The chain that authenticates a request and the configuration that then serves it are those of one
-- configured key, whatever the iteration orders of the two maps, if they have the same keys and none
-- of these is empty.
pub auth_chain-agrees {ℓ} :
    {C : Type ℓ} (s : SortSlice Bytes) (keys : List (Bytes × KeyConfig)) (auths : List (Bytes × C))
    (key : Bytes)
    → ((x : Bytes) → Member x (names keys) → Member x (names auths))
    → ((x : Bytes) → Member x (names auths) → Member x (names keys))
    → ¬ Member [] (names keys)
    → (n : Bytes) × Chosen (names keys) key n
      × (resolve_key_config s keys key ≡ find_key n keys)
      × (auth_chain auths key ≡ find_key n auths)
auth_chain-agrees s keys auths key to from named =
    let (m, chosen, e) = resolve_key_config-Chosen s keys key in
    let (n, taken, f) = auth_chain-Chosen auths key (λ h. named (from [] h)) in
    let same = Chosen-unique (names keys) (names auths) key m n to from chosen taken in
    (m, chosen, e, f ∙ ap (λ x. find_key x auths) (sym same))

best_candidate-none :
    (key : Bytes) (ks : List Bytes) (b : Bytes)
    → ((m : Bytes) → Member m ks → Serves key m → m ≡ [])
    → Longest key [] ks b
    → b ≡ []
best_candidate-none key ks b only r = elim r.found [ inl e ↦ e | inr (h, s) ↦ only b h s ]

auth_chain-fallback {ℓ} :
    {C : Type ℓ} (auths : List (Bytes × C)) (key : Bytes)
    → find_key key auths ≡ none
    → best_candidate key [] (names auths) ≡ []
    → auth_chain auths key ≡ find_key default_key auths
unfolding auth_chain
auth_chain-fallback auths key missing e = rw (missing, e, auth_chain)

find_key-missing {ℓ} :
    {C : Type ℓ} (auths : List (Bytes × C)) (key : Bytes)
    → ¬ Member key (names auths)
    → find_key key auths ≡ none
find_key-missing auths key new = elim (Option-cases (find_key key auths)) [
  | inl e ↦ e
  | inr (v, e) ↦ absurd (new (find_key-Member key auths v e))
]

-- Where an empty key is configured, every key that begins with a slash, is not configured itself and
-- has no other configured prefix is served by the configuration of the empty key, and authenticated
-- by the chain of "default".
pub auth_chain-empty_key {ℓ} :
    {C : Type ℓ} (s : SortSlice Bytes) (keys : List (Bytes × KeyConfig)) (auths : List (Bytes × C))
    (tail : Bytes)
    → ((x : Bytes) → Member x (names keys) → Member x (names auths))
    → ((x : Bytes) → Member x (names auths) → Member x (names keys))
    → Member [] (names keys)
    → ¬ Member (b'/' ∷ tail) (names keys)
    → ((m : Bytes) → Member m (names keys) → Serves (b'/' ∷ tail) m → m ≡ [])
    → (resolve_key_config s keys (b'/' ∷ tail) ≡ find_key [] keys)
      × (auth_chain auths (b'/' ∷ tail) ≡ find_key default_key auths)
auth_chain-empty_key s keys auths tail to from empty new only =
    let key = b'/' ∷ tail in
    let (n, chosen, e) = resolve_key_config-Chosen s keys key in
    let same =
      Chosen-unique (names keys) (names keys) key n [] (λ _ h. h) (λ _ h. h) chosen
        (by_prefix new empty (not_default, (key, refl, inr (tail, refl))) shortest) in
    (
      e ∙ ap (λ x. find_key x keys) same,
      auth_chain-fallback auths key (find_key-missing auths key (λ h. new (from key h))) (
          best_candidate-none key (names auths) _ (λ m h v. only m (from m h) v)
            (best_candidate-Longest key [] (names auths))),
    )
  where
    not_default : [] ≢ default_key
    not_default e = cc

    shortest : (m : Bytes) → Member m (names keys) → Serves (b'/' ∷ tail) m → length m ≤ 0
    shortest m h v = omega (arith, ap length (only m h v))
