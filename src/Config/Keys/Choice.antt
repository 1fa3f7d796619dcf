-- ===== src/Config/Keys/Choice.antt =====
-- The matching rules of `ResolveKeyConfig`, as a specification of the chosen key.
use backupgate.Prelude.{
  ◌≤◌, ◌≡◌, sym, ap, ◌∙◌, ◌≢◌, ◌⊎◌, inl, inr, false, some, List, [], ◌∷◌, ◌++◌, arith, Bool-cases,
  length, take, take_all, take-append_left, Bytes, str_eq, str_eq_sound, str_eq_complete,
}
use backupgate.Sort.{Member}
use backupgate.Config.Keys.{default_key, find_key, names}

-- `prefix` is `key` itself, or is followed by a slash in it.
abbrev pub IsPathPrefix : Bytes → Bytes → Type 0
IsPathPrefix prefix key =
    (rest : Bytes) × (key ≡ prefix ++ rest)
    × ((rest ≡ []) ⊎ ((tail : Bytes) × (rest ≡ b'/' ∷ tail)))

-- A name other than "default" whose entry serves the key.
abbrev pub Serves : Bytes → Bytes → Type 0
Serves key m = (m ≢ default_key) × IsPathPrefix m key

-- The key whose entry is chosen for `key`: itself, if it is configured; else the longest configured
-- path prefix; else "default".
pub data Chosen (configured : List Bytes) (key n : Bytes) : Type 0 where
  exact : Member key configured → n ≡ key → Chosen configured key n
  by_prefix :
      ¬ Member key configured
      → Member n configured
      → Serves key n
      → ((m : Bytes) → Member m configured → Serves key m → length m ≤ length n)
      → Chosen configured key n
  by_default :
      ¬ Member key configured
      → ((m : Bytes) → Member m configured → ¬ Serves key m)
      → n ≡ default_key
      → Chosen configured key n

take_of_append : (m rest key : Bytes) → key ≡ m ++ rest → take (length m) key ≡ m
take_of_append m rest key e =
    ap (take (length m)) e
    ∙ take-append_left (length m) m rest (omega arith)
    ∙ take_all (length m) m (omega arith)

-- Two prefixes of a key that are as long as one another are one.
IsPathPrefix-unique :
    (m n key : Bytes) → IsPathPrefix m key → IsPathPrefix n key → length m ≡ length n → m ≡ n
IsPathPrefix-unique m n key (r, e, _) (s, f, _) same =
    sym (take_of_append m r key e) ∙ ap (λ k. take k key) same ∙ take_of_append n s key f

-- The rules choose one key, whatever the order of the configured keys.
pub Chosen-unique :
    (ks ls : List Bytes) (key m n : Bytes)
    → ((x : Bytes) → Member x ks → Member x ls)
    → ((x : Bytes) → Member x ls → Member x ks)
    → Chosen ks key m
    → Chosen ls key n
    → m ≡ n
Chosen-unique ks ls key m n to from (exact a e) (exact b f) = e ∙ sym f
Chosen-unique ks ls key m n to from (exact a e) (by_prefix b _ _ _) = absurd (b (to key a))
Chosen-unique ks ls key m n to from (exact a e) (by_default b _ _) = absurd (b (to key a))
Chosen-unique ks ls key m n to from (by_prefix a _ _ _) (exact b f) = absurd (a (from key b))
Chosen-unique ks ls key m n to from (by_prefix a x p best) (by_prefix b y q most) =
    IsPathPrefix-unique m n key p.1 q.1 (omega (arith, best n (from n y) q, most m (to m x) p))
Chosen-unique ks ls key m n to from (by_prefix a x p best) (by_default b none_serves f) =
    absurd (none_serves m (to m x) p)
Chosen-unique ks ls key m n to from (by_default a none_serves e) (exact b f) =
    absurd (a (from key b))
Chosen-unique ks ls key m n to from (by_default a none_serves e) (by_prefix b y q most) =
    absurd (none_serves n (from n y) q)
Chosen-unique ks ls key m n to from (by_default a s e) (by_default b t f) = e ∙ sym f

-- A lookup succeeds exactly at the names of the map.
pub find_key-Member {ℓ} :
    {V : Type ℓ} (key : Bytes) (m : List (Bytes × V)) (v : V)
    → find_key key m ≡ some v
    → Member key (names m)
unfolding find_key
find_key-Member key [] v e = cc
find_key-Member key ((k, w) ∷ m) v e = elim (Bool-cases (str_eq k key)) [
  | inl h ↦ inl (sym (str_eq_sound k key h))
  | inr h ↦ inr (find_key-Member key m v (rw h at e))
]

pub Member-find_key {ℓ} :
    {V : Type ℓ} (key : Bytes) (m : List (Bytes × V))
    → Member key (names m)
    → (v : V) × (find_key key m ≡ some v)
unfolding find_key
Member-find_key key [] h = absurd h
Member-find_key key ((k, w) ∷ m) h = elim (Bool-cases (str_eq k key)) [
  | inl e ↦ (w, rw e)
  | inr e ↦ rw e (Member-find_key key m (later h e))
]
  where
    later : (key ≡ k) ⊎ Member key (names m) → str_eq k key ≡ false → Member key (names m)
    later (inl same) f = cc (str_eq_complete k key (sym same))
    later (inr there) f = there
