-- ===== src/Api/Multipart.antt =====
-- internal/api/s3_multipart.go: the sessions of multipart uploads. An operation returns its
-- response, the store after it and the buffers that it closes.
pub mod Sessions
pub mod Completes
mod Tests
use backupgate.Prelude.{
  ◌⊎◌, inl, inr, Bool, not, ◌||◌, Option, none, some, List, [], ◌∷◌, ◌++◌, map, if◌then◌else◌,
  Bytes, str_eq,
}
use backupgate.Prelude.Int.{ℤ, pos, ◌+ℤ◌, ltb_ℤ, leb_ℤ, wrap64}
use backupgate.Io.{eqb_ℤ}
use backupgate.Config.Types.{BufferMode, fully_complete, Config}
use backupgate.Sort.{SortSlice}
use backupgate.Pipeline.Types.{Env, ok, err}
use backupgate.Pipeline.Process.{process}
use backupgate.Config.Keys.{find_key}

-- `multipartPart`, whose buffer is a handle of the type `B`.
pub record MultipartPart (B : Type 0) : Type 0 where
  pub part_number : ℤ
  pub size : ℤ
  pub etag : Bytes
  pub buffer : B

-- `multipartSession`; the map of the parts is the list of its values, with distinct numbers.
pub record MultipartSession (B : Type 0) : Type 0 where
  pub key : Bytes
  pub upload_id : Bytes
  pub parts : List (MultipartPart B)

-- The field `sessions`.
abbrev pub Sessions : Type 0 → Type 0
Sessions B = List (Bytes × MultipartSession B)

-- What the handlers answer.
pub data Response : Type 0 where
  initiated : Bytes → Response
  stored : Bytes → Response
  completed : Bytes → Bytes → Response
  no_content : Response
  no_such_upload invalid_argument invalid_request internal_error : Response
  invalid_part : Option ℤ → Response

-- What `completeMultipartUpload` uses: `sort.Ints`, the configuration, and the pipeline over the
-- assembled reader of the buffers of the parts.
pub record Completion (W B : Type 0) : Type 0 where
  pub ints : SortSlice ℤ
  pub names : SortSlice Bytes
  pub cfg : Config
  pub pipeline : List B → Env W

module _ {B : Type 0} where
  -- `session.parts[n]`
  pub find_part : ℤ → List (MultipartPart B) → Option (MultipartPart B)
  find_part n [] = none
  find_part n (p ∷ ps) = let rest = find_part n ps in if eqb_ℤ p.part_number n then some p else rest

  -- `session.parts[n] = part`
  pub put_part : MultipartPart B → List (MultipartPart B) → List (MultipartPart B)
  put_part part [] = part ∷ []
  put_part part (p ∷ ps) =
      let rest = put_part part ps in
      if eqb_ℤ p.part_number part.part_number then part ∷ ps else p ∷ rest

  -- `s.sessions[id] = session`
  pub put_session : Bytes → MultipartSession B → Sessions B → Sessions B
  put_session id session [] = (id, session) ∷ []
  put_session id session ((i, s) ∷ rest) =
      if str_eq i id then (id, session) ∷ rest else (i, s) ∷ put_session id session rest

  -- `deleteMultipartSession`
  pub delete_multipart_session : Bytes → Sessions B → Sessions B
  delete_multipart_session id [] = []
  delete_multipart_session id ((i, s) ∷ rest) =
      let kept = delete_multipart_session id rest in if str_eq i id then kept else (i, s) ∷ kept

  -- `closeMultipartParts`: the buffers closed.
  pub close_multipart_parts : MultipartSession B → List B
  close_multipart_parts session = map (λ p. p.buffer) session.parts

  -- `createMultipartUpload`; `new_id` is `randomUploadID`, `read` that the body was read, and
  -- `hash_valid` the answer of `ValidateContentHash`.
  pub create_multipart_upload :
      BufferMode → Bytes → Option Bytes → Bool → Bool → Sessions B → Response × Sessions B
  unfolding put_session
  create_multipart_upload mode key new_id read hash_valid sessions =
      if not (str_eq mode fully_complete) then (invalid_request, sessions) else elim new_id [
        | none ↦ (internal_error, sessions)
        | some id ↦ if not read || not hash_valid then (invalid_request, sessions) else (
          initiated id,
          put_session id (record { key = key; upload_id = id; parts = [] }) sessions,
        )
      ]

  -- `uploadPart`; `number` is what `strconv.Atoi` reads, `opened` the buffer of `NewUploadReader`,
  -- and `copied` the size and the MD5 sum of what `io.Copy` wrote, if it read the body.
  pub upload_part :
      Bytes
      → Option ℤ
      → Option B
      → Option (ℤ × Bytes)
      → Bool
      → Sessions B
      → Response × Sessions B × List B
  unfolding put_part put_session find_part
  upload_part id number opened copied hash_valid sessions = elim (find_key id sessions) [
    | none ↦ (no_such_upload, sessions, [])
    | some session ↦ elim number [
      | none ↦ (invalid_argument, sessions, [])
      | some n ↦ if leb_ℤ n (pos 0) then (invalid_argument, sessions, []) else elim opened [
        | none ↦ (internal_error, sessions, [])
        | some buf ↦ elim copied [
          | none ↦ (invalid_request, sessions, buf ∷ [])
          | some c ↦
              if not hash_valid
              then (invalid_request, sessions, [])
              else let part : MultipartPart B = record {
                part_number = n;
                size = c.0;
                etag = c.1;
                buffer = buf;
              } in
                (
                  stored c.1,
                  put_session id (record session { parts = put_part part session.parts }) sessions,
                  elim (find_part n session.parts) [ none ↦ [] | some old ↦ old.buffer ∷ [] ],
                )
        ]
      ]
    ]
  ]

  -- The loop of `completeMultipartUpload`: the readers and the total size so far, or the number of a
  -- missing part.
  pub gather : List ℤ → List (MultipartPart B) → ℤ → (List B × ℤ) ⊎ ℤ
  unfolding find_part
  gather [] parts total = inl ([], total)
  gather (n ∷ ns) parts total = elim (find_part n parts) [
    | none ↦ inr n
    | some part ↦ elim (gather ns parts (wrap64 (total +ℤ part.size))) [
      | inl r ↦ inl (part.buffer ∷ r.0, r.1)
      | inr m ↦ inr m
    ]
  ]

  -- `requestedPartNumbers`, of the numbers in the request's body.
  pub requested_part_numbers : SortSlice ℤ → List ℤ → MultipartSession B → List ℤ
  requested_part_numbers ints [] session = ints.sort ltb_ℤ (map (λ p. p.part_number) session.parts)
  requested_part_numbers ints (n ∷ ns) session = ints.sort ltb_ℤ (n ∷ ns)

  -- `completeMultipartUpload`, with the state of the pipeline. The assembled reader is closed in any
  -- case, which closes the parts that it has.
  pub complete_multipart_upload :
      {W : Type 0}
      → Completion W B
      → Bytes
      → List ℤ
      → Bool
      → W
      → Sessions B
      → Response × W × Sessions B × List B
  unfolding gather requested_part_numbers close_multipart_parts delete_multipart_session
  complete_multipart_upload c id requested hash_valid w sessions = elim (find_key id sessions) [
    | none ↦ (no_such_upload, w, sessions, [])
    | some session ↦
        if not hash_valid
        then (invalid_request, w, sessions, [])
        else elim (gather (requested_part_numbers c.ints requested session) session.parts (pos 0)) [
          | inr n ↦ (invalid_part (some n), w, sessions, [])
          | inl r ↦
              let (result, w') =
                process (c.pipeline r.0) c.names c.cfg session.key
                  (record { content_length = r.1; expected_sha256 = [] }) w in
              elim result [
                | err e ↦ (internal_error, w', sessions, r.0)
                | ok done ↦ (
                  completed done.storage_path done.md5,
                  w',
                  delete_multipart_session id sessions,
                  close_multipart_parts session ++ r.0,
                )
              ]
        ]
  ]

  -- `abortMultipartUpload`
  pub abort_multipart_upload : Bytes → Sessions B → Response × Sessions B × List B
  unfolding close_multipart_parts delete_multipart_session
  abort_multipart_upload id sessions = elim (find_key id sessions) [
    | none ↦ (no_content, sessions, [])
    | some session ↦
        (no_content, delete_multipart_session id sessions, close_multipart_parts session)
  ]
