-- ===== src/Text/Replace.antt =====
-- `replaceAll` ends, and replaces each occurrence that a scan from the left meets.
use backupgate.Prelude.{
  ℕ, zero, suc, ◌+◌, ◌≤◌, ◌<◌, ◌≡◌, refl, ap, ◌∙◌, inl, inr, none, some, [], ◌++◌, append_assoc,
  arith, length, take, drop, length-append, length-drop, Bytes, has_prefix_sound,
}
use backupgate.Text.{index_of, replace_all}
use backupgate.Text.Search.{OccursAt, index_of-lem}

-- `r` is `s` with the occurrences of `old` replaced by `new`, from the left: what is put in is not
-- searched again.
pub data Replaced (old new : Bytes) : Bytes → Bytes → Type 0 where
  rest :
      (s r : Bytes) → ((k : ℕ) → k ≤ length s → ¬ OccursAt s old k) → r ≡ s → Replaced old new s r
  first :
      (s r : Bytes) (k : ℕ) (r' : Bytes)
      → OccursAt s old k
      → ((j : ℕ) → j < k → ¬ OccursAt s old j)
      → Replaced old new (drop (k + length old) s) r'
      → r ≡ take k s ++ (new ++ r')
      → Replaced old new s r

replace_all-step :
    (fuel k : ℕ) (acc s old new : Bytes)
    → index_of s old ≡ some k
    → replace_all (suc fuel) acc s old new
      ≡ replace_all fuel (acc ++ (take k s ++ new)) (drop (k + length old) s) old new
unfolding replace_all
replace_all-step fuel k acc s old new e = rw (e, replace_all)

replace_all-stop :
    (fuel : ℕ) (acc s old new : Bytes)
    → index_of s old ≡ none
    → replace_all (suc fuel) acc s old new ≡ some (acc ++ s)
unfolding replace_all
replace_all-stop fuel acc s old new e = rw (e, replace_all)

-- An occurrence shortens what is left to search.
occurs_shorter :
    (s old : Bytes) (k : ℕ)
    → 0 < length old
    → k ≤ length s
    → OccursAt s old k
    → length (drop (k + length old) s) < length s
occurs_shorter s old k h le o = omega (
  arith,
  length-drop (k + length old) s,
  length-drop k s,
  ap length (has_prefix_sound old (drop k s) o),
  length-append old (drop (length old) (drop k s)),
)

replace_all-acc :
    (fuel : ℕ) (acc s old new : Bytes)
    → 0 < length old
    → length s < fuel
    → (r : Bytes) × (replace_all fuel acc s old new ≡ some (acc ++ r)) × Replaced old new s r
unfolding replace_all
replace_all-acc zero acc s old new h enough = absurd (omega arith)
replace_all-acc (suc fuel) acc s old new h enough = elim (index_of-lem s old) [
  | inl (e, no_place) ↦ (s, replace_all-stop fuel acc s old new e, rest s s no_place refl)
  | inr (k, e, le, o, least) ↦
      let (r, run, replaced) =
        replace_all-acc fuel (acc ++ (take k s ++ new)) (drop (k + length old) s) old new h
          (omega (arith, occurs_shorter s old k h le o)) in
      (
        take k s ++ (new ++ r),
        replace_all-step fuel k acc s old new e
            ∙ run
            ∙ ap some (
                append_assoc acc (take k s ++ new) r
                ∙ ap (λ l. acc ++ l) (append_assoc (take k s) new r)),
        first s _ k r o least replaced refl,
      )
]

-- `replaceAll` of a text that is not empty ends, after at most one round for each byte of `s` and
-- one more, and returns `s` with the occurrences replaced.
pub replace_all-Replaced :
    (fuel : ℕ) (s old new : Bytes)
    → 0 < length old
    → length s < fuel
    → (r : Bytes) × (replace_all fuel [] s old new ≡ some r) × Replaced old new s r
replace_all-Replaced fuel s old new h enough = replace_all-acc fuel [] s old new h enough
