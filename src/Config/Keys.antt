-- ===== src/Config/Keys.antt =====
-- internal/config/config.go, `ResolveKeyConfig`: the entry of `keys` for an upload key.
pub mod Choice
pub mod Resolve
use backupgate.Prelude.{
  Bool, true, false, not, Option, none, some, List, [], ◌∷◌, ltb, ◌==◌, if◌then◌else◌, length,
  get_or, Bytes, bytes, str_eq, has_prefix,
}
use backupgate.Sort.{SortSlice}
use backupgate.Config.Types.{KeyConfig}

-- `m[key]` of a map with string keys.
unfoldable pub find_key {ℓ} : {V : Type ℓ} → Bytes → List (Bytes × V) → Option V
find_key key [] = none
find_key key ((k, v) ∷ m) = if str_eq k key then some v else find_key key m

abbrev pub names {ℓ} : {V : Type ℓ} → List (Bytes × V) → List Bytes
names [] = []
names ((k, v) ∷ m) = k ∷ names m

abbrev pub default_key : Bytes
default_key = bytes "default"

-- `isPathPrefix`
pub is_path_prefix : Bytes → Bytes → Bool
is_path_prefix prefix key =
    if not (has_prefix prefix key)
    then false
    else if length key == length prefix
    then true
    else get_or key (length prefix) 0 == b'/'

-- The keys but "default", in the order of the map's iteration.
candidates : List Bytes → List Bytes
candidates [] = []
candidates (k ∷ ks) = let rest = candidates ks in if str_eq k default_key then rest else k ∷ rest

-- `len(candidates[i]) > len(candidates[j])`
abbrev longer : Bytes → Bytes → Bool
longer a b = ltb (length b) (length a)

-- The loop over the sorted candidates.
first_prefix : Bytes → List Bytes → Option Bytes
first_prefix key [] = none
first_prefix key (c ∷ cs) =
    let rest = first_prefix key cs in if is_path_prefix c key then some c else rest

-- `ResolveKeyConfig`; `keys` is in the order of the map's iteration.
pub resolve_key_config : SortSlice Bytes → List (Bytes × KeyConfig) → Bytes → Option KeyConfig
resolve_key_config s keys key = elim (find_key key keys) [
  | some kc ↦ some kc
  | none ↦ elim (first_prefix key (s.sort longer (candidates (names keys)))) [
    | some candidate ↦ find_key candidate keys
    | none ↦ find_key default_key keys
  ]
]
