-- ===== src/Api/Multipart/Sessions.antt =====
-- What the operations on multipart uploads do to the sessions, the parts and their buffers.
use backupgate.Prelude.{
  ◌≡◌, refl, ◌≢◌, true, false, none, some, List, [], ◌∷◌, map, arith, if◌then◌else◌, Bytes,
  str_eq_iff,
}
use backupgate.Prelude.Int.{ℤ, pos, leb_ℤ}
use backupgate.Io.{eqb_ℤ}
use backupgate.Config.Keys.{find_key}
use backupgate.Api.Multipart.{
  MultipartPart, MultipartSession, Sessions, stored, no_content, find_part, put_part, put_session,
  delete_multipart_session, close_multipart_parts, upload_part, abort_multipart_upload,
}

module _ {B : Type 0} where
  pub find_key-delete_same :
      (id : Bytes) (sessions : Sessions B)
      → find_key id (delete_multipart_session id sessions) ≡ none
  unfolding find_key delete_multipart_session
  find_key-delete_same id [] = refl
  find_key-delete_same id ((i, s) ∷ rest) = ground (arith, find_key-delete_same id rest)

  pub find_key-delete_other :
      (id other : Bytes) (sessions : Sessions B)
      → other ≢ id
      → find_key other (delete_multipart_session id sessions) ≡ find_key other sessions
  unfolding find_key delete_multipart_session
  find_key-delete_other id other [] apart = refl
  find_key-delete_other id other ((i, s) ∷ rest) apart =
      ground (arith, find_key-delete_other id other rest apart, str_eq_iff i id, str_eq_iff i other)

  find_key-put_same :
      (id : Bytes) (session : MultipartSession B) (sessions : Sessions B)
      → find_key id (put_session id session sessions) ≡ some session
  unfolding find_key put_session
  find_key-put_same id session [] = ground (arith, str_eq_iff id id)
  find_key-put_same id session ((i, s) ∷ rest) =
      ground (arith, find_key-put_same id session rest, str_eq_iff i id, str_eq_iff id id)

  find_part-put_part :
      (n : ℤ) (part : MultipartPart B) (parts : List (MultipartPart B))
      → find_part n (put_part part parts)
        ≡ (if eqb_ℤ part.part_number n then some part else find_part n parts)
  unfolding find_part put_part
  find_part-put_part n part [] = refl
  find_part-put_part n part (p ∷ ps) = ground (arith, find_part-put_part n part ps)

  -- `AbortMultipartUpload` of a session ends it: the upload is unknown afterwards, every other upload
  -- is as before, and the buffers of all its parts, and no others, are closed.
  pub abort_multipart_upload-gone :
      (id other : Bytes) (session : MultipartSession B) (sessions : Sessions B)
      → find_key id sessions ≡ some session
      → other ≢ id
      → let (response, sessions', closed) = abort_multipart_upload id sessions in
        (response ≡ no_content)
        × (find_key id sessions' ≡ none)
        × (find_key other sessions' ≡ find_key other sessions)
        × (closed ≡ map (λ p. p.buffer) session.parts)
  unfolding abort_multipart_upload close_multipart_parts
  abort_multipart_upload-gone id other session sessions found apart =
      rw (found, abort_multipart_upload)
        (
          refl,
          find_key-delete_same id sessions,
          find_key-delete_other id other sessions apart,
          refl,
        )

  find_key-put_other :
      (id other : Bytes) (session : MultipartSession B) (sessions : Sessions B)
      → other ≢ id
      → find_key other (put_session id session sessions) ≡ find_key other sessions
  unfolding find_key put_session
  find_key-put_other id other session [] apart = ground (arith, str_eq_iff id other)
  find_key-put_other id other session ((i, s) ∷ rest) apart = ground (
    arith,
    find_key-put_other id other session rest apart,
    str_eq_iff i id,
    str_eq_iff i other,
    str_eq_iff id other,
  )

  -- An `UploadPart` to a known upload, with a positive number and a body that was read and hashed as
  -- announced, answers with its ETag. Afterwards the session has the part under that number and every
  -- other part as before, the other uploads are as before, and the buffer of the part that it
  -- replaces, and no other, is closed.
  pub upload_part-find_part :
      (id other : Bytes) (n k : ℤ) (buf : B) (size : ℤ) (etag : Bytes)
      (session : MultipartSession B) (sessions : Sessions B)
      → find_key id sessions ≡ some session
      → leb_ℤ n (pos 0) ≡ false
      → other ≢ id
      → let part : MultipartPart B = record {
        part_number = n;
        size = size;
        etag = etag;
        buffer = buf;
      } in
        let (response, sessions', closed) =
          upload_part id (some n) (some buf) (some (size, etag)) true sessions in
        (response ≡ stored etag)
        × ((after : MultipartSession B) × (find_key id sessions' ≡ some after)
            × (after.key ≡ session.key)
            × (find_part k after.parts
                ≡ (if eqb_ℤ n k then some part else find_part k session.parts)))
        × (find_key other sessions' ≡ find_key other sessions)
        × (closed ≡ elim (find_part n session.parts) [ none ↦ [] | some old ↦ old.buffer ∷ [] ])
  unfolding upload_part
  upload_part-find_part id other n k buf size etag session sessions found positive apart =
      let part : MultipartPart B = record {
        part_number = n;
        size = size;
        etag = etag;
        buffer = buf;
      } in
      let after : MultipartSession B = record session { parts = put_part part session.parts } in
      rw (found, positive, upload_part)
        (
          refl,
          (
            after,
            find_key-put_same id after sessions,
            refl,
            find_part-put_part k part session.parts,
          ),
          find_key-put_other id other after sessions apart,
          refl,
        )
