-- ===== src/Api/Multipart/Completes.antt =====
-- What `CompleteMultipartUpload` gives to the pipeline.
use backupgate.Prelude.{
  ◌≡◌, refl, sym, subst, ap, ap₂, ◌∙◌, ◌≢◌, ◌⊎◌, inl, inr, Bool, true, false, not, Option, none,
  some, List, [], ◌∷◌, ◌++◌, map, arith, if◌then◌else◌, Bool-cases, Option-cases, All, Bytes,
}
use backupgate.Prelude.Int.{ℤ, pos, ltb_ℤ, ◌+ℤ◌, wrap64}
use backupgate.Io.{eqb_ℤ}
use backupgate.Sort.{Member, SortSlice, Rearranged, IsSorted, IsWeakOrder}
use backupgate.Config.Keys.{find_key, names}
use backupgate.Config.Keys.Choice.{Chosen}
use backupgate.Config.Types.{KeyConfig}
use backupgate.Storage.Backend.{IsBackend}
use backupgate.Pipeline.Types.{UploadMetadata, UploadResult, Result, M, ok, err}
use backupgate.Pipeline.Process.{process}
use backupgate.Pipeline.Process.Served.{Delivered, process-Arrived}
use backupgate.Api.Multipart.{
  Completion, MultipartPart, MultipartSession, Sessions, Response, completed, no_such_upload,
  invalid_request, invalid_part, internal_error, find_part, delete_multipart_session,
  close_multipart_parts, gather, requested_part_numbers, complete_multipart_upload,
}
use backupgate.Api.Multipart.Sessions.{find_key-delete_same, find_key-delete_other}

eqb_ℤ-sound : (a b : ℤ) → eqb_ℤ a b ≡ true → a ≡ b
eqb_ℤ-sound a b h = ground arith

some_inj : {A : Type 0} {a b : A} → some a ≡ some b → a ≡ b
some_inj h = cc

sides_differ : {A C : Type 0} {a : A} {c : C} → ◌≡◌ {A = A ⊎ C} (inr c) (inl a) → ⊥
sides_differ h = cc

inl_inj : {A C : Type 0} {a b : A} → ◌≡◌ {A = A ⊎ C} (inl a) (inl b) → a ≡ b
inl_inj h = cc

completed_inj : {a b c d : Bytes} → completed a b ≡ completed c d → (a ≡ c) × (b ≡ d)
completed_inj h = (cc, cc)

int_order : IsWeakOrder ltb_ℤ
int_order = record { asym = λ a b h. ground arith; through = λ a b c h k. ground arith }

module _ {B : Type 0} where
  find_part-Member :
      (n : ℤ) (p : MultipartPart B) (parts : List (MultipartPart B))
      → find_part n parts ≡ some p
      → Member p parts × (p.part_number ≡ n)
  unfolding find_part
  find_part-Member n p [] h = cc
  find_part-Member n p (q ∷ qs) h = elim (Bool-cases (eqb_ℤ q.part_number n)) [
    | inl e ↦
        let same : q ≡ p = some_inj (rw e at h) in
        (inl (sym same), ap (λ x. x.part_number) (sym same) ∙ eqb_ℤ-sound q.part_number n e)
    | inr e ↦ let (m, number) = find_part-Member n p qs (rw e at h) in (inr m, number)
  ]

  abbrev pub total_size : ℤ → List (MultipartPart B) → ℤ
  total_size total [] = total
  total_size total (p ∷ ps) = total_size (wrap64 (total +ℤ p.size)) ps

  -- The parts `ps` of the session, in the order of the numbers, as what the pipeline is given.
  abbrev ArePartsOf : List (MultipartPart B) → List ℤ → List (MultipartPart B) → Type 0
  ArePartsOf parts ns ps = (map (λ p. p.part_number) ps ≡ ns) × All (λ p. Member p parts) ps

  gather-ArePartsOf :
      (ns : List ℤ) (parts : List (MultipartPart B)) (total : ℤ) (bs : List B) (t : ℤ)
      → gather ns parts total ≡ inl (bs, t)
      → (ps : List (MultipartPart B)) × ArePartsOf parts ns ps
        × (bs ≡ map (λ p. p.buffer) ps)
        × (t ≡ total_size total ps)
  unfolding gather
  gather-ArePartsOf [] parts total bs t h = ([], (refl, tt), cc, cc)
  gather-ArePartsOf (n ∷ ns) parts total bs t h = elim (Option-cases (find_part n parts)) [
    | inl e ↦ elim (sides_differ (rw (e, gather) at h)) [ ]
    | inr (p, e) ↦
        more p e (λ cs u f. gather-ArePartsOf ns parts (wrap64 (total +ℤ p.size)) cs u f)
          (gather ns parts (wrap64 (total +ℤ p.size))) refl (rw (e, gather) at h)
  ]
    where
      more :
          (p : MultipartPart B)
          → find_part n parts ≡ some p
          → ((cs : List B) (u : ℤ)
              → gather ns parts (wrap64 (total +ℤ p.size)) ≡ inl (cs, u)
              → (ps : List (MultipartPart B)) × ArePartsOf parts ns ps
                × (cs ≡ map (λ p. p.buffer) ps)
                × (u ≡ total_size (wrap64 (total +ℤ p.size)) ps))
          → (r : (List B × ℤ) ⊎ ℤ) → gather ns parts (wrap64 (total +ℤ p.size)) ≡ r
          → ◌≡◌ {A = (List B × ℤ) ⊎ ℤ}
              (elim r [ inl q ↦ inl (p.buffer ∷ q.0, q.1) | inr m ↦ inr m ])
              (inl (bs, t))
          → (ps : List (MultipartPart B)) × ArePartsOf parts (n ∷ ns) ps
            × (bs ≡ map (λ p. p.buffer) ps)
            × (t ≡ total_size total ps)
      more p e ih (inr m) f k = cc
      more p e ih (inl (cs, u)) f k =
          let (ps, (numbers, members), buffers, sum) = ih cs u f in
          let (member, number) = find_part-Member n p parts e in
          (
            p ∷ ps,
            (ap₂ (λ x y. x ∷ y) number numbers, (member, members)),
            ap (λ z. z.0) (sym (inl_inj k)) ∙ ap (λ y. p.buffer ∷ y) buffers,
            ap (λ z. z.1) (sym (inl_inj k)) ∙ sum,
          )

  -- The last steps of a `CompleteMultipartUpload` whose session is found.
  abbrev pub finish :
      {W : Type 0}
      → (Bytes → List B → ℤ → M W UploadResult)
      → Bytes
      → MultipartSession B
      → W
      → Sessions B
      → Bool
      → (List B × ℤ) ⊎ ℤ
      → Response × W × Sessions B × List B
  finish run id session w sessions hash_valid gathered =
      if not hash_valid then (invalid_request, w, sessions, []) else elim gathered [
        | inr n ↦ (invalid_part (some n), w, sessions, [])
        | inl r ↦
            let (result, w') = run session.key r.0 r.1 w in
            elim result [
              | err e ↦ (internal_error, w', sessions, r.0)
              | ok done ↦ (
                completed done.storage_path done.md5,
                w',
                delete_multipart_session id sessions,
                close_multipart_parts session ++ r.0,
              )
            ]
      ]

  finish-completed :
      {W : Type 0} (run : Bytes → List B → ℤ → M W UploadResult) (id : Bytes)
      (session : MultipartSession B) (w w' : W) (sessions sessions' : Sessions B) (valid : Bool)
      (gathered : (List B × ℤ) ⊎ ℤ) (path md5 : Bytes) (closed : List B)
      → ◌≡◌ {A = Response × W × Sessions B × List B}
          (finish run id session w sessions valid gathered)
          (completed path md5, w', sessions', closed)
      → (r : List B × ℤ) × (gathered ≡ inl r)
        × (result : UploadResult) × (run session.key r.0 r.1 w ≡ (ok result, w'))
        × (result.storage_path ≡ path)
        × (result.md5 ≡ md5)
        × (sessions' ≡ delete_multipart_session id sessions)
  finish-completed run id session w w' sessions sessions' false g path md5 closed h = cc
  finish-completed run id session w w' sessions sessions' true (inr n) path md5 closed h = cc
  finish-completed {W} run id session w w' sessions sessions' true (inl r) path md5 closed h =
      go (run session.key r.0 r.1 w) refl h
    where
      go :
          (o : Result UploadResult × W)
          → run session.key r.0 r.1 w ≡ o
          → ◌≡◌ {A = Response × W × Sessions B × List B}
              (elim o.0 [
                | err e ↦ (internal_error, o.1, sessions, r.0)
                | ok done ↦ (
                  completed done.storage_path done.md5,
                  o.1,
                  delete_multipart_session id sessions,
                  close_multipart_parts session ++ r.0,
                )
              ])
              (completed path md5, w', sessions', closed)
          → (q : List B × ℤ) × (◌≡◌ {A = (List B × ℤ) ⊎ ℤ} (inl r) (inl q))
            × (result : UploadResult) × (run session.key q.0 q.1 w ≡ (ok result, w'))
            × (result.storage_path ≡ path)
            × (result.md5 ≡ md5)
            × (sessions' ≡ delete_multipart_session id sessions)
      go (err x, v) e k = cc
      go (ok done, v) e k =
          let (at, sum) = completed_inj (ap (λ z. z.0) k) in
          (
            r,
            refl,
            done,
            e ∙ ap (λ x. (ok done, x)) (ap (λ z. z.1) k),
            at,
            sum,
            ap (λ z. z.2) (sym k),
          )

  -- The numbers of the parts that a request asks for: those that it lists, or else all.
  abbrev pub asked : List ℤ → MultipartSession B → List ℤ
  asked [] session = map (λ p. p.part_number) session.parts
  asked (n ∷ ns) session = n ∷ ns

  requested_part_numbers-sorted :
      (ints : SortSlice ℤ) (requested : List ℤ) (session : MultipartSession B)
      → Rearranged (requested_part_numbers ints requested session) (asked requested session)
        × IsSorted ltb_ℤ (requested_part_numbers ints requested session)
  unfolding requested_part_numbers
  requested_part_numbers-sorted ints [] session =
      (ints.rearranged ltb_ℤ (asked [] session), ints.sorted ltb_ℤ (asked [] session) int_order)
  requested_part_numbers-sorted ints (n ∷ ns) session =
      (ints.rearranged ltb_ℤ (n ∷ ns), ints.sorted ltb_ℤ (n ∷ ns) int_order)

  -- The parts `ps` of the session are those asked for, in the order of their numbers.
  abbrev pub AreAsked : List ℤ → MultipartSession B → List (MultipartPart B) → Type 0
  AreAsked requested session ps =
      Rearranged (map (λ p. p.part_number) ps) (asked requested session)
      × IsSorted ltb_ℤ (map (λ p. p.part_number) ps)
      × All (λ p. Member p session.parts) ps

  -- What the pipeline is told of the parts.
  abbrev pub metadata_of : List (MultipartPart B) → UploadMetadata
  metadata_of ps = record { content_length = total_size (pos 0) ps; expected_sha256 = [] }

  -- With backends that keep their contract and digests that are never empty, a
  -- `CompleteMultipartUpload` that answers with a storage path found the session, and ran the
  -- pipeline under its key on the buffers of the parts asked for, in the order of their numbers and
  -- with their sizes added up. The pipeline succeeded, which leaves its state; the path and the MD5
  -- sum answered are those that it reports, and its digests are those of the payload that it read.
  -- If the entry of the key that the matching rules choose asks for verification, there was a state,
  -- after which only the rotation ran, in which the remote file at that path had the digest of the
  -- payload. The upload is unknown afterwards and every other upload is as before.
  pub complete_multipart_upload-stored :
      {W : Type 0} (c : Completion W B) (remote : W → Bytes → Option Bytes)
      (is : (bs : List B) → IsBackend (c.pipeline bs).backend remote)
      → ((bs : List B) (d : Bytes) → (c.pipeline bs).sha256_hex d ≢ [])
      → (id other : Bytes) (requested : List ℤ) (hash_valid : Bool) (w w' : W)
        (sessions sessions' : Sessions B) (closed : List B) (path md5 : Bytes)
      → other ≢ id
      → complete_multipart_upload c id requested hash_valid w sessions
        ≡ (completed path md5, w', sessions', closed)
      → (session : MultipartSession B) × (ps : List (MultipartPart B)) × (find_key id sessions
          ≡ some session)
        × AreAsked requested session ps
        × (result : UploadResult) × (process
              (c.pipeline (map (λ p. p.buffer) ps))
              c.names
              c.cfg
              session.key
              (metadata_of ps)
              w
            ≡ (ok result, w'))
        × (result.storage_path ≡ path)
        × (result.md5 ≡ md5)
        × (n : Bytes) × (k : KeyConfig) × Chosen (names c.cfg.keys) session.key n
        × (find_key n c.cfg.keys ≡ some k)
        × Delivered
            (c.pipeline (map (λ p. p.buffer) ps))
            remote
            (is (map (λ p. p.buffer) ps))
            session.key
            k
            (metadata_of ps)
            w
            w'
            result
        × (find_key id sessions' ≡ none)
        × (find_key other sessions' ≡ find_key other sessions)
  unfolding complete_multipart_upload
  complete_multipart_upload-stored {W} c remote is digests id other requested valid w w' sessions
        sessions' closed path md5 apart h =
      elim (Option-cases (find_key id sessions)) [
        | inl e ↦ elim (not_completed (rw (e, complete_multipart_upload) at h)) [ ]
        | inr (session, e) ↦
            let numbers = requested_part_numbers c.ints requested session in
            let (r, gathered, result, ran, at, sum, gone) =
              finish-completed run id session w w' sessions sessions' valid
                (gather numbers session.parts (pos 0)) path md5 closed
                (rw (e, complete_multipart_upload) at h) in
            let (ps, (listed, members), buffers, total) =
              gather-ArePartsOf numbers session.parts (pos 0) r.0 r.1 gathered in
            let (rearranged, sorted) = requested_part_numbers-sorted c.ints requested session in
            let bs = map (λ p. p.buffer) ps in
            let stored : run session.key bs (total_size (pos 0) ps) w ≡ (ok result, w') =
              ap₂ (λ x y. run session.key x y w) (sym buffers) (sym total) ∙ ran in
            let (n, k, chosen, found, delivered) =
              process-Arrived (c.pipeline bs) remote (is bs) c.names c.cfg session.key
                (metadata_of ps) w w' result (digests bs) stored in
            (
              session,
              ps,
              e,
              (
                subst (λ l. Rearranged l (asked requested session)) (sym listed) rearranged,
                subst (IsSorted ltb_ℤ) (sym listed) sorted,
                members,
              ),
              result,
              stored,
              at,
              sum,
              n,
              k,
              chosen,
              found,
              delivered,
              ap (find_key id) gone ∙ find_key-delete_same id sessions,
              ap (find_key other) gone ∙ find_key-delete_other id other sessions apart,
            )
      ]
    where
      run : Bytes → List B → ℤ → M W UploadResult
      run key bs total =
          process (c.pipeline bs) c.names c.cfg key
            (record { content_length = total; expected_sha256 = [] })

      not_completed :
          ◌≡◌ {A = Response × W × Sessions B × List B}
            (no_such_upload, w, sessions, [])
            (completed path md5, w', sessions', closed)
          → ⊥
      not_completed k = cc
