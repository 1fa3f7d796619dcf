-- ===== src/Api/Http/Tests.antt =====
-- Runs of the HTTP protocol on files in memory.
use backupgate.Prelude.{ℕ, ◌≡◌, refl, ap, ◌≢◌, ◌⊎◌, true, some, List, [], ◌∷◌, Bytes, bytes, str_eq}
use backupgate.Prelude.Int.{pos}
use backupgate.Sort.{insertion_sort}
use backupgate.Config.Types.{KeyConfig, get_detach_backup_from_request}
use backupgate.Config.Keys.{find_key, names}
use backupgate.Config.Keys.Choice.{Chosen}
use backupgate.Auth.Chain.{
  Chain, credentials, FirstGrants, authenticate_by, check_credentials, try_providers,
}
use backupgate.Auth.Chain
use backupgate.Pipeline.Process.Tests.{
  Files, env, one_key, no_files, one_file, outcome, remote, memory_backend-IsBackend,
  process_succeeds, verified_config,
}
use backupgate.Api.Keys.{extract_key, auth_chain}
use backupgate.Config.Keys.Resolve.{resolve_key_config-exact}
use backupgate.Api.Handler.{
  Body, Event, user_set, locked, unlocked, opened, closed, processed, buffered, Handler, finished,
  authenticate, upload_body, process_body,
}
use backupgate.Api.Handler.Brackets.{IsBracketed}
use backupgate.Api.Http.{
  credentials_of, metadata_of, Request, created, refused, serve_http, post_upload, store_body,
  respond,
}
use backupgate.Pipeline.Process.Served.{Delivered}
use backupgate.Api.Http.Order.{serve_http-IsBracketed}
use backupgate.Api.Http.Uploads.{Ran, serve_http-guarded, serve_http-created}

abbrev pub ann : Chain
ann = credentials (record { username = bytes "ann"; password = bytes "pw" } ∷ []) ∷ []

abbrev pub handler : Handler Files
handler = record {
  cfg = one_key;
  names = insertion_sort Bytes;
  auths = (bytes "db", ann) ∷ [];
  pipeline = λ body. env;
  new_upload_reader = λ w key n. (true, w);
  copy_body = λ w. (true, w);
  close_buffer = λ w. w;
}

abbrev request : Request
request = record {
  method = bytes "POST";
  path = bytes "/db";
  username = bytes "ann";
  password = bytes "pw";
  content_length = pos 4;
  backup_sha256 = bytes "adump";
}

abbrev happened : List Event
happened =
    user_set (bytes "ann")
    ∷ locked (bytes "db")
    ∷ opened
    ∷ processed (bytes "db") buffered true
    ∷ closed
    ∷ unlocked (bytes "db")
    ∷ []

uploads : serve_http handler request no_files ≡ (created outcome, happened, one_file)
unfolding serve_http post_upload store_body upload_body process_body authenticate extract_key
    auth_chain Chain.authenticate try_providers authenticate_by check_credentials find_key respond
    str_eq get_detach_backup_from_request
uploads =
    rw
      (
        resolve_key_config-exact (insertion_sort Bytes) one_key.keys (bytes "db") verified_config
            refl,
        serve_http,
        post_upload,
        store_body,
      )
      (ap (λ x. (respond (finished x.0), happened, x.1)) process_succeeds)

serve_http-IsBracketed_example : IsBracketed (serve_http handler request no_files).1
serve_http-IsBracketed_example = serve_http-IsBracketed handler request no_files

serve_http-guarded_example :
    ((status : ℕ) × (serve_http handler request no_files ≡ (refused status, [], no_files)))
    ⊎ ((u : Bytes) × (chain : Chain) × (bytes "POST" ≡ bytes "POST")
        × (extract_key (bytes "/db") ≢ [])
        × (auth_chain handler.auths (extract_key (bytes "/db")) ≡ some chain)
        × FirstGrants (credentials_of request) u chain)
serve_http-guarded_example = serve_http-guarded handler request no_files

serve_http-created_example :
    (u : Bytes) × (chain : Chain) × (auth_chain handler.auths (extract_key (bytes "/db"))
      ≡ some chain)
    × FirstGrants (credentials_of request) u chain
    × (n : Bytes) × (k : KeyConfig) × Chosen (names one_key.keys) (extract_key (bytes "/db")) n
    × (find_key n one_key.keys ≡ some k)
    × (body : Body) × (v : Files) × (v' : Files) × Ran handler request
        (extract_key (bytes "/db"))
        k
        no_files
        one_file
        outcome
        body
        v
        v'
    × Delivered env remote memory_backend-IsBackend
        (extract_key (bytes "/db"))
        k
        (metadata_of request)
        v
        v'
        outcome
serve_http-created_example =
    serve_http-created handler remote (λ body. memory_backend-IsBackend) (λ body c e. cc) request
      no_files one_file outcome happened uploads
