-- ===== src/Pipeline/Process/Tests.antt =====
-- Runs of an upload to a backend that keeps its files in memory.
use backupgate.Prelude.{
  ◌≡◌, refl, sym, ap, ◌∙◌, ◌≢◌, ◌⊎◌, true, Option, none, some, [], ◌∷◌, ◌++◌, arith, if◌then◌else◌,
  Bytes, bytes, str_eq, str_eq_iff, str_eq_refl,
}
use backupgate.Prelude.Int.{pos}
use backupgate.Sort.{insertion_sort}
use backupgate.Config.Types.{fully_complete, KeyConfig}
use backupgate.Storage.Backend.{not_exist, Backend, IsBackend, Entry}
use backupgate.Storage.Backend
use backupgate.Rotation
use backupgate.Pipeline.Types.{UploadMetadata, UploadResult, Env, ok}
use backupgate.Pipeline.Upload.{upload_with_retry, verify, verify_and_retransmit}
use backupgate.Pipeline.Process.{
  trim_left, trim, max_age_duration, rotation_dir, generate_storage_path, hash_upload_reader,
  apply_rotation, mismatches, expected_hash, verify_if, announced_size, store, process_buffered,
  process_with,
}
use backupgate.Config.Keys.{find_key, names}
use backupgate.Config.Keys.Resolve.{resolve_key_config-exact}
use backupgate.Config.Keys.Choice.{Chosen}
use backupgate.Config.Types.{Config, header_mode, sftp_storage}
use backupgate.Pipeline.Process.{process}
use backupgate.Pipeline.Process.Served.{Delivered, process-resolved, process-Arrived}
use backupgate.Pipeline.Process.Payload.{IsPayload, IsDigested}
use backupgate.Pipeline.Process.Checked.{process_with-matches, process_with-inexact}

-- The remote files, by their paths.
abbrev pub Files : Type 0
Files = Bytes → Option Bytes

abbrev pub payload : Bytes
payload = bytes "dump"

abbrev put : Files → Bytes → Option Bytes → Files
put w p c q = if str_eq q p then c else w q

abbrev pub memory_backend : Backend Files
memory_backend = record {
  upload = λ w p n. (none, payload, put w p (some payload));
  resume_upload = λ w p from n. (none, payload, put w p (some payload));
  remote_size = λ w p. (Backend.ok (pos 4), w);
  download = λ w p. elim (w p) [ none ↦ (Backend.err not_exist, w) | some c ↦ (Backend.ok c, w) ];
  delete = λ w p. (none, put w p none);
  list = λ w p. (Backend.ok [], w);
}

abbrev pub remote : Files → Bytes → Option Bytes
remote w p = w p

put_same : (w : Files) (p : Bytes) (c : Option Bytes) → put w p c p ≡ c
put_same w p c = rw (str_eq_refl p)

put_other : (w : Files) (p q : Bytes) (c : Option Bytes) → q ≢ p → put w p c q ≡ w q
put_other w p q c apart = ground (arith, str_eq_iff q p)

downloaded_found :
    (w : Files) (p c : Bytes) (w' : Files) (found : Option Bytes)
    → w p ≡ found
    → ◌≡◌ {A = Backend.Stored Bytes × Files}
        (elim found [ none ↦ (Backend.err not_exist, w) | some d ↦ (Backend.ok d, w) ])
        (Backend.ok c, w')
    → (w p ≡ some c) × ((q : Bytes) → w' q ≡ w q)
downloaded_found w p c w' none e h = cc
downloaded_found w p c w' (some d) e h =
    let same : some d ≡ some c = cc in (e ∙ same, λ q. ap (λ r. r.1 q) (sym h))

pub memory_backend-IsBackend : IsBackend memory_backend remote
memory_backend-IsBackend = record {
  file_of = λ p. p;
  one_file = λ w p q e. ap w e;
  uploaded = λ w p n read w' h.
      ap (λ r. r.2 p) (sym h) ∙ put_same w p (some payload) ∙ ap (λ r. some r.1) h;
  downloaded = λ w p c w' h. downloaded_found w p c w' (w p) refl h;
  deleted = λ w p w' h. (
    ap (λ r. r.1 p) (sym h) ∙ put_same w p none,
    λ q apart. ap (λ r. r.1 q) (sym h) ∙ put_other w p q none apart,
  );
  listed = λ w p q. refl;
}

-- The digest of a content is here a letter in front of it, and two texts fold to the same if they
-- are the same.
abbrev pub env : Env Files
env = record {
  backend = memory_backend;
  hashing_upload = λ w p n. (none, payload, put w p (some payload));
  is_seeker = true;
  seek_start = λ w. (none, w);
  read_all = λ w. (payload, none, w);
  body_size = λ w. pos 4;
  sha256_hex = λ c. b'a' ∷ c;
  md5_hex = λ c. b'b' ∷ c;
  equal_fold = str_eq;
  timestamp = bytes "T";
  now = pos 52;
  path_clean = λ p. p;
  path_base = λ p. p;
  path_dir = λ p. bytes ".";
  path_join = λ a b. a ++ (b'/' ∷ b);
  parse_duration = λ d. none;
  rotation = record { parse_time = λ b. none; slices = insertion_sort Entry };
}

abbrev pub verified_config : KeyConfig
verified_config = record {
  buffer_mode = fully_complete;
  verification = true;
  detach_backup_from_request = none;
  rotation = record { max_count = pos 0; max_age = [] };
  auth = [];
}

abbrev pub announced : UploadMetadata
announced = record { content_length = pos 4; expected_sha256 = bytes "adump" }

abbrev pub no_files : Files
no_files p = none

abbrev pub outcome : UploadResult
outcome = record {
  key = bytes "db";
  size = pos 4;
  sha256 = bytes "adump";
  md5 = bytes "bdump";
  storage_path = bytes "T_db";
  verified = true;
}

abbrev pub one_file : Files
one_file = put no_files (bytes "T_db") (some payload)

succeeds : process_with env verified_config (bytes "db") announced no_files ≡ (ok outcome, one_file)
unfolding process_with str_eq mismatches store upload_with_retry verify_and_retransmit verify
    expected_hash apply_rotation generate_storage_path rotation_dir trim trim_left announced_size
    Rotation.apply hash_upload_reader process_buffered verify_if max_age_duration
succeeds = refl

abbrev pub one_key : Config
one_key = record {
  server = record {
    api = record { mode = header_mode; listen = bytes ":8080"; s3 = none; http = none };
    debug = none;
  };
  buffer = record { memory = pos 0; sliding_window_size = pos 0; max_memory = pos 0; tmp_dir = [] };
  storage = record { kind = sftp_storage; sftp = none; rsync = none };
  keys = (bytes "db", verified_config) ∷ [];
}

pub process_succeeds :
    process env (insertion_sort Bytes) one_key (bytes "db") announced no_files
    ≡ (ok outcome, one_file)
unfolding process find_key str_eq
process_succeeds =
    rw
      (
        resolve_key_config-exact (insertion_sort Bytes) one_key.keys (bytes "db") verified_config
            refl,
        process,
      )
      succeeds

-- A size of ten bytes, and no digest announced.
abbrev pub ten_bytes : UploadMetadata
ten_bytes = record { content_length = pos 10; expected_sha256 = [] }

abbrev pub ten_bytes_outcome : UploadResult
ten_bytes_outcome = record outcome { size = pos 10 }

ten_bytes_arrive :
    process_with env verified_config (bytes "db") ten_bytes no_files
    ≡ (ok ten_bytes_outcome, one_file)
unfolding process_with str_eq mismatches store upload_with_retry verify_and_retransmit verify
    expected_hash apply_rotation generate_storage_path rotation_dir trim trim_left announced_size
    Rotation.apply hash_upload_reader process_buffered verify_if max_age_duration
ten_bytes_arrive = refl

pub ten_bytes_succeed :
    process env (insertion_sort Bytes) one_key (bytes "db") ten_bytes no_files
    ≡ (ok ten_bytes_outcome, one_file)
unfolding find_key str_eq
ten_bytes_succeed =
    process-resolved env remote memory_backend-IsBackend (insertion_sort Bytes) one_key (bytes "db")
      ten_bytes no_files verified_config
      (resolve_key_config-exact (insertion_sort Bytes) one_key.keys (bytes "db") verified_config
        refl)
    ∙ ten_bytes_arrive

process-Arrived_example :
    (n : Bytes) × (k : KeyConfig) × Chosen (names one_key.keys) (bytes "db") n
    × (find_key n one_key.keys ≡ some k)
    × Delivered env remote memory_backend-IsBackend
        (bytes "db")
        k
        announced
        no_files
        one_file
        outcome
process-Arrived_example =
    process-Arrived env remote memory_backend-IsBackend (insertion_sort Bytes) one_key (bytes "db")
      announced no_files one_file outcome (λ c e. cc) process_succeeds

process_with-matches_example :
    (read : Bytes) × IsPayload env (bytes "db") verified_config announced no_files read
    × IsDigested env outcome read
    × ((bytes "adump" ≡ []) ⊎ (str_eq (bytes "adump") (env.sha256_hex read) ≡ true))
process_with-matches_example =
    process_with-matches env (bytes "db") verified_config announced no_files one_file outcome
      succeeds (λ e. cc)

-- The digest in other letters.
abbrev in_capitals : UploadMetadata
in_capitals = record { content_length = pos 4; expected_sha256 = bytes "ADUMP" }

process_with-inexact_example :
    process_with env verified_config (bytes "db") in_capitals no_files ≢ (ok outcome, one_file)
process_with-inexact_example =
    process_with-inexact env remote memory_backend-IsBackend (bytes "db") verified_config
      in_capitals no_files one_file outcome (λ c e. cc) refl (λ e. cc) (λ c e. cc)
