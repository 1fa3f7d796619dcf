-- ===== src/Rotation/Applied.antt =====
-- internal/rotation/rotation.go, `Apply`: what a rotation that succeeds leaves in the storage.
use backupgate.Prelude.{
  ◌≡◌, refl, sym, ap, ◌∙◌, ◌≢◌, ◌⊎◌, inl, inr, Bool, true, false, ◌&&◌, Option, none, some, List,
  [], ◌∷◌, ◌++◌, if◌then◌else◌, Bool-cases, All, Bytes, str_eq, str_eq_sound, str_eq_complete,
  arith,
}
use backupgate.Prelude.Int.{ℤ, pos}
use backupgate.Storage.Backend.{
  StoreError, not_exist, unsupported, still_running, failed, Stored, ok, err, Entry, Backend,
  IsBackend,
}
use backupgate.Io.{eqb_ℤ}
use backupgate.Rotation.{Policy, Surroundings, to_delete, delete_all, apply}

both_zero : (a b : ℤ) → eqb_ℤ a (pos 0) && eqb_ℤ b (pos 0) ≡ true → (a ≡ pos 0) × (b ≡ pos 0)
both_zero a b h = ground arith

-- The path of an entry of the directory `dir`.
abbrev pub path_in : Bytes → Entry → Bytes
path_in dir e = dir ++ (b'/' ∷ e.name)

module _ {W : Type 0} (b : Backend W) (remote : W → Bytes → Option Bytes)
    (is : IsBackend b remote) where
  -- The files of the entries are gone, and the other files are as they were.
  abbrev pub Rotated : Bytes → List Entry → W → W → Type 0
  Rotated dir es w w' =
      All (λ e. remote w' (path_in dir e) ≡ none) es
      × ((q : Bytes)
          → All (λ e. is.file_of q ≢ is.file_of (path_in dir e)) es
          → remote w' q ≡ remote w q)

  delete_all-step :
      (w w' : W) (dir : Bytes) (e : Entry) (es : List Entry)
      → delete_all b w dir (e ∷ es) ≡ (none, w')
      → (v : W) × (b.delete w (path_in dir e) ≡ (none, v)) × (delete_all b v dir es ≡ (none, w'))
  unfolding delete_all
  delete_all-step w w' dir e es h = go (b.delete w (path_in dir e)) refl h
    where
      go :
          (x : Option StoreError × W)
          → b.delete w (path_in dir e) ≡ x
          → ◌≡◌ {A = Option StoreError × W}
              (let rest = delete_all b x.1 dir es in
                elim x.0 [ none ↦ rest | some y ↦ (some y, x.1) ])
              (none, w')
          → (v : W) × (b.delete w (path_in dir e) ≡ (none, v))
            × (delete_all b v dir es ≡ (none, w'))
      go (none, v) k t = (v, k, t)
      go (some y, v) k t = cc

  deleted_stays :
      (v w' : W) (dir p : Bytes) (es : List Entry)
      → remote v p ≡ none
      → delete_all b v dir es ≡ (none, w')
      → remote w' p ≡ none
  unfolding delete_all
  deleted_stays v w' dir p [] gone h = ap (λ x. remote x.1 p) (sym h) ∙ gone
  deleted_stays v w' dir p (e ∷ es) gone h =
      let (u, now, later) = delete_all-step v w' dir e es h in
      let (empty, others) = is.deleted v (path_in dir e) u now in
      let still : remote u p ≡ none =
        elim (Bool-cases (str_eq (is.file_of p) (is.file_of (path_in dir e)))) [
          | inl same ↦
              is.one_file u p (path_in dir e)
                (str_eq_sound (is.file_of p) (is.file_of (path_in dir e)) same)
              ∙ empty
          | inr apart ↦
              others p (λ t.
                let absurd : true ≡ false =
                  sym (str_eq_complete (is.file_of p) (is.file_of (path_in dir e)) t) ∙ apart in
                cc)
              ∙ gone
        ] in
      deleted_stays u w' dir p es still later

  delete_all-Rotated :
      (w w' : W) (dir : Bytes) (es : List Entry)
      → delete_all b w dir es ≡ (none, w')
      → Rotated dir es w w'
  unfolding delete_all
  delete_all-Rotated w w' dir [] h = (tt, λ q apart. ap (λ x. remote x.1 q) (sym h))
  delete_all-Rotated w w' dir (e ∷ es) h =
      let (v, now, later) = delete_all-step w w' dir e es h in
      let (empty, others) = is.deleted w (path_in dir e) v now in
      let (gone, kept) = delete_all-Rotated v w' dir es later in
      (
        (deleted_stays v w' dir (path_in dir e) es empty later, gone),
        λ q apart. kept q apart.1 ∙ others q apart.0,
      )

  -- A rotation that succeeds deletes what it selects of the entries that `List` finds in the directory:
  -- the file of each of these is gone, and every other remote file, in any directory, is as it was. It
  -- changes no file where it does not select: only if the policy has neither a count nor an age, or if
  -- `List` answers that the directory does not exist.
  pub apply-Rotated :
      (env : Surroundings) (now : ℤ) (w w' : W) (dir : Bytes) (policy : Policy)
      → apply b env now w dir policy ≡ (none, w')
      → (Rotated dir [] w w'
          × (((policy.max_count ≡ pos 0) × (policy.max_age ≡ pos 0))
              ⊎ ((b.list w dir).0 ≡ err not_exist)))
        ⊎ ((es : List Entry) × ((b.list w dir).0 ≡ ok es)
            × Rotated dir (to_delete env policy now es) w w')
  unfolding apply
  apply-Rotated env now w w' dir policy h =
      go (eqb_ℤ policy.max_count (pos 0) && eqb_ℤ policy.max_age (pos 0)) refl (b.list w dir).0 refl
        h
    where
      v : W
      v = (b.list w dir).1

      Result : Type 0
      Result =
          (Rotated dir [] w w'
            × (((policy.max_count ≡ pos 0) × (policy.max_age ≡ pos 0))
                ⊎ ((b.list w dir).0 ≡ err not_exist)))
          ⊎ ((es : List Entry) × ((b.list w dir).0 ≡ ok es)
              × Rotated dir (to_delete env policy now es) w w')

      go :
          (off : Bool)
          → eqb_ℤ policy.max_count (pos 0) && eqb_ℤ policy.max_age (pos 0) ≡ off
          → (x : Stored (List Entry)) → (b.list w dir).0 ≡ x
          → ◌≡◌ {A = Option StoreError × W}
              (if off then (none, w) else elim x [
                | err not_exist ↦ (none, v)
                | err e ↦ (some e, v)
                | ok es ↦ delete_all b v dir (to_delete env policy now es)
              ])
              (none, w')
          → Result
      go true off x k t = inl (
        (tt, λ q apart. ap (λ a. remote a.1 q) (sym t)),
        inl (both_zero policy.max_count policy.max_age off),
      )
      go false on (err not_exist) k t =
          inl ((tt, λ q apart. ap (λ a. remote a.1 q) (sym t) ∙ is.listed w dir q), inr k)
      go false on (err unsupported) k t = cc
      go false on (err still_running) k t = cc
      go false on (err (failed n)) k t = cc
      go false on (ok es) k t =
          let (gone, kept) = delete_all-Rotated v w' dir (to_delete env policy now es) t in
          inr (es, k, (gone, λ q apart. kept q apart ∙ is.listed w dir q))
