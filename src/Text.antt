-- ===== src/Text.antt =====
-- Searching and replacing in strings: `indexOf` and `replaceAll` of internal/auth/external.go, and
-- `strings.Index` as internal/auth/inline.go uses it.
pub mod Search
mod Tests
pub mod Replace
use backupgate.Prelude.{
  ℕ, zero, suc, ◌+◌, Option, none, some, [], ◌∷◌, ◌++◌, if◌then◌else◌, length, take, drop, Bytes,
  has_prefix,
}

-- `indexOf(s, substr)`, for the rest `s` that begins at the index `i`; `none` is -1.
index_from : ℕ → Bytes → Bytes → Option ℕ
index_from i [] sub = if has_prefix sub [] then some i else none
index_from i (c ∷ s) sub =
    let rest = index_from (i + 1) s sub in if has_prefix sub (c ∷ s) then some i else rest

-- `indexOf`
unfoldable pub index_of : Bytes → Bytes → Option ℕ
unfolding index_from
index_of s sub = index_from 0 s sub

-- `replaceAll`, with fuel for the rounds of its loop. `none` is a loop that is still running.
unfoldable pub replace_all : ℕ → Bytes → Bytes → Bytes → Bytes → Option Bytes
replace_all zero result s old new = none
replace_all (suc fuel) result s old new = elim (index_of s old) [
  | none ↦ some (result ++ s)
  | some idx ↦ replace_all fuel (result ++ (take idx s ++ new)) (drop (idx + length old) s) old new
]
