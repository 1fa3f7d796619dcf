-- ===== src/Api/Keys.antt =====
-- internal/api/handler.go: the upload key of a request, and the authentication chain for it.
pub mod Agree
use backupgate.Prelude.{
  ◌||◌, Option, none, some, List, [], ◌∷◌, ◌++◌, ltb, ◌==◌, if◌then◌else◌, length, Bytes, bytes,
  str_eq, has_prefix,
}
use backupgate.Config.Keys.{find_key, default_key, names}

-- `extractKey`, of the URL's path.
unfoldable pub extract_key : Bytes → Bytes
extract_key [] = []
extract_key (c ∷ path) = if c == b'/' then path else c ∷ path

-- The loop of `authChain` over the map in the order of its iteration: the longest prefix so far.
pub best_candidate : Bytes → Bytes → List Bytes → Bytes
best_candidate key best [] = best
best_candidate key best (candidate ∷ cs) =
    best_candidate key
      (if str_eq candidate default_key
        then best
        else if str_eq key candidate || has_prefix (candidate ++ bytes "/") key
        then (if ltb (length best) (length candidate) then candidate else best)
        else best)
      cs

-- `authChain`, for chains of any kind.
unfoldable pub auth_chain {ℓ} : {C : Type ℓ} → List (Bytes × C) → Bytes → Option C
auth_chain auths key =
    let best = best_candidate key [] (names auths) in
    elim (find_key key auths) [
      | some chain ↦ some chain
      | none ↦ elim best [ [] ↦ find_key default_key auths | b ∷ bs ↦ find_key (b ∷ bs) auths ]
    ]
