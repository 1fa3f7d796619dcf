-- ===== src/Rotation.antt =====
-- internal/rotation/rotation.go: which old backups are deleted after an upload.
mod Tests
pub mod Applied
pub mod Selected
use backupgate.Prelude.{
  ℕ, ◌+◌, ◌-◌, Bool, ◌&&◌, ◌||◌, Option, none, some, List, [], ◌∷◌, ◌++◌, ltb, leb, if◌then◌else◌,
  Bytes,
}
use backupgate.Prelude.Int.{ℤ, pos, negsuc, pos_part, neg_part, ◌-ℤ◌, ltb_ℤ, leb_ℤ, int64_end}
use backupgate.Io.{eqb_ℤ}
use backupgate.Sort.{SortSlice}
use backupgate.Auth.Htpasswd.{cut}
use backupgate.Storage.Backend.{StoreError, not_exist, ok, err, Entry, Backend}

-- `Policy`, the age in nanoseconds.
pub record Policy : Type 0 where
  pub max_count : ℤ
  pub max_age : ℤ

-- What the package uses of its surroundings: `time.Parse` with the layout of the file names (an
-- instant in nanoseconds), and `sort.Slice`.
pub record Surroundings : Type 0 where
  pub parse_time : Bytes → Option ℤ
  pub slices : SortSlice Entry

-- `now.Sub(ts)`: a duration is an int64, and the difference stops at its ends.
abbrev pub sub_time : ℤ → ℤ → ℤ
sub_time now ts =
    let d = now -ℤ ts in
    if leb int64_end (pos_part d)
    then pos (int64_end - 1)
    else if ltb int64_end (neg_part d)
    then negsuc (int64_end - 1)
    else d

module _ (env : Surroundings) where
  -- `parseTimestamp`
  pub parse_timestamp : Bytes → Option ℤ
  parse_timestamp name = elim (cut b'_' name) [ none ↦ none | some r ↦ env.parse_time r.0 ]

  -- `ts, _ := parseTimestamp(name)`: the zero time where there is none, here as a parameter of the
  -- order that no sorted file meets.
  pub timestamp : Entry → ℤ
  unfolding parse_timestamp
  timestamp e = elim (parse_timestamp e.name) [ none ↦ pos 0 | some ts ↦ ts ]

  -- The loop that gathers the files with a timestamp.
  pub timestamped : List Entry → List Entry
  timestamped [] = []
  timestamped (e ∷ es) =
      let rest = timestamped es in
      if e.is_dir then rest else elim (parse_timestamp e.name) [ none ↦ rest | some ts ↦ e ∷ rest ]

  -- `ti.After(tj)`
  pub newer : Entry → Entry → Bool
  unfolding timestamp
  newer a b = ltb_ℤ (timestamp b) (timestamp a)

  -- The test of the loop of `selectForDeletion` for the file `f` at the index `i`.
  pub is_excess : Policy → ℤ → ℕ → Entry → Bool
  unfolding timestamp
  is_excess policy now i f =
      (ltb_ℤ (pos 0) policy.max_count && leb_ℤ policy.max_count (pos i))
      || (ltb_ℤ (pos 0) policy.max_age && ltb_ℤ policy.max_age (sub_time now (timestamp f)))

  -- `selectForDeletion`, from the index `i` on.
  pub select_from : Policy → ℤ → ℕ → List Entry → List Entry
  select_from policy now i [] = []
  select_from policy now i (f ∷ fs) =
      let rest = select_from policy now (i + 1) fs in
      if is_excess policy now i f then f ∷ rest else rest

  pub select_for_deletion : Policy → ℤ → List Entry → List Entry
  select_for_deletion policy now files = select_from policy now 0 files

  -- What `Apply` selects of the entries of a directory.
  pub to_delete : Policy → ℤ → List Entry → List Entry
  to_delete policy now entries =
      select_for_deletion policy now (env.slices.sort newer (timestamped entries))

module _ {W : Type 0} (b : Backend W) where
  -- The loop of `Apply` over what is selected: the first error ends it.
  pub delete_all : W → Bytes → List Entry → Option StoreError × W
  delete_all w key [] = (none, w)
  delete_all w key (e ∷ es) =
      let (failure, w') = b.delete w (key ++ (b'/' ∷ e.name)) in
      let rest = delete_all w' key es in elim failure [ none ↦ rest | some x ↦ (some x, w') ]

  -- `Apply`
  unfoldable pub apply : Surroundings → ℤ → W → Bytes → Policy → Option StoreError × W
  apply env now w key policy =
      if eqb_ℤ policy.max_count (pos 0) && eqb_ℤ policy.max_age (pos 0)
      then (none, w)
      else let (entries, w') = b.list w key in
        elim entries [
          | err not_exist ↦ (none, w')
          | err e ↦ (some e, w')
          | ok es ↦ delete_all w' key (to_delete env policy now es)
        ]
