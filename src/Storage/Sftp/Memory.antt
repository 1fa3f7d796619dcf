-- ===== src/Storage/Sftp/Memory.antt =====
-- A machine that holds its files in memory, as the packages ssh and sftp see it.
use backupgate.Prelude.{
  ℕ, ◌+◌, ◌≡◌, refl, sym, ap, ◌∙◌, ◌≢◌, Bool, true, false, Option, none, some, [], arith,
  if◌then◌else◌, length, drop, Bytes, bytes, str_eq, str_eq_iff, str_eq_refl,
}
use backupgate.Prelude.Int.{ℤ, pos, negsuc, pos_part}
use backupgate.Io.{eof}
use backupgate.Storage.Backend.{StoreError, not_exist, failed, Stored, ok, err}
use backupgate.Storage.Sftp.{OpenMode, truncate, keep, SftpLibrary, Source, Setting}
use backupgate.Storage.Sftp.Laws.{overwrite, SameFiles, IsSftp, HasSessions}

-- The files by their paths, the offset of the open file, and whether there is a session.
pub record Machine : Type 0 where
  pub files : Bytes → Option Bytes
  pub offset : ℕ
  pub live : Bool

abbrev pub put : (Bytes → Option Bytes) → Bytes → Option Bytes → Bytes → Option Bytes
put w p c q = if str_eq q p then c else w q

abbrev pub or_empty : Option Bytes → Bytes
or_empty none = []
or_empty (some b) = b

abbrev pub opened_mode : Machine → Bytes → OpenMode → Option Bytes
opened_mode m p truncate = some []
opened_mode m p keep = some (or_empty (m.files p))

abbrev pub sought : Machine → ℤ → Option StoreError × Machine
sought m (pos k) = (none, record { files = m.files; offset = k; live = m.live })
sought m (negsuc k) = (some (failed 9), m)

abbrev pub found : Machine → Bytes → Option Bytes → Stored Bytes × Machine
found m p none = (err not_exist, m)
found m p (some b) = (ok p, m)

abbrev pub file_read : Bool → Option Bytes → Stored Bytes
file_read false c = err (failed 7)
file_read true none = err not_exist
file_read true (some b) = ok b

abbrev pub machine_library : SftpLibrary Machine (Unit {0}) (Unit {0}) Bytes
machine_library = record {
  ssh_connect = λ m. (ok tt, m);
  new_client = λ m s. (ok tt, record { files = m.files; offset = m.offset; live = true });
  close_client = λ m c. record { files = m.files; offset = m.offset; live = false };
  close_ssh = λ m s. m;
  mkdir_all = λ m c p. (none, m);
  open_file = λ m c p mode.
      (ok p, record { files = put m.files p (opened_mode m p mode); offset = 0; live = m.live });
  open_read = λ m c p. found m p (m.files p);
  seek = λ m h k. sought m k;
  write = λ m h b. (
    none,
    record {
      files = put m.files h (some (overwrite (or_empty (m.files h)) m.offset b));
      offset = m.offset + length b;
      live = m.live;
    },
  );
  read_all = λ m h. (file_read m.live (m.files h), m);
  close = λ m h. m;
  remove = λ m c p. (none, record { files = put m.files p none; offset = m.offset; live = m.live });
  read_dir = λ m c p. (ok [], m);
  stat_size =
      λ m c p. (elim (m.files p) [ none ↦ err not_exist | some b ↦ ok (pos (length b)) ], m);
}

put_same : (w : Bytes → Option Bytes) (p : Bytes) (c : Option Bytes) → put w p c p ≡ c
put_same w p c = rw (str_eq_refl p)

put_other : (w : Bytes → Option Bytes) (p q : Bytes) (c : Option Bytes) → q ≢ p → put w p c q ≡ w q
put_other w p q c apart = ground (arith, str_eq_iff q p)

found_same : (m : Machine) (p q : Bytes) (c : Option Bytes) → (found m p c).1.files q ≡ m.files q
found_same m p q none = refl
found_same m p q (some b) = refl

found_path : (m : Machine) (p h : Bytes) (c : Option Bytes) → (found m p c).0 ≡ ok h → h ≡ p
found_path m p h none e = cc
found_path m p h (some b) e = cc

sought_at :
    (m m' : Machine) (k : ℕ)
    → sought m (pos k) ≡ (none, m')
    → (m'.offset ≡ k) × SameFiles (λ f. f.files) m m'
sought_at m m' k e = (ap (λ x. x.1.offset) (sym e), λ q. ap (λ x. x.1.files q) (sym e))

file_read-some : (l : Bool) (c : Option Bytes) (b : Bytes) → file_read l c ≡ ok b → c ≡ some b
file_read-some false c b e = cc
file_read-some true none b e = cc
file_read-some true (some d) b e = cc

or_empty_elim : (c : Option Bytes) → or_empty c ≡ elim c [ none ↦ [] | some b ↦ b ]
or_empty_elim none = refl
or_empty_elim (some b) = refl

stat_some :
    (c : Option Bytes) (n : ℤ)
    → ◌≡◌ {A = Stored ℤ} (elim c [ none ↦ err not_exist | some b ↦ ok (pos (length b)) ]) (ok n)
    → (b : Bytes) × (c ≡ some b) × (n ≡ pos (length b))
stat_some none n e = cc
stat_some (some b) n e = (b, refl, cc)

pub machine_library-IsSftp : IsSftp machine_library (λ m. m.files) (λ h. h) (λ m h. m.offset)
machine_library-IsSftp = record {
  connecting = λ f q. refl;
  starting = λ f s q. refl;
  client_closing = λ f c q. refl;
  ssh_closing = λ f s q. refl;
  making = λ f c p q. refl;
  opening = λ f c p q. found_same f p q (f.files p);
  reading = λ f h q. refl;
  closing = λ f h q. refl;
  listing = λ f c p q. refl;
  truncated = λ f f' c p h e.
      let path : p ≡ h = cc in
      (
        sym path,
        ap (λ x. x.1.offset) (sym e),
        ap (λ x. x.1.files p) (sym e) ∙ put_same f.files p (some []),
        λ q apart. ap (λ x. x.1.files q) (sym e) ∙ put_other f.files p q (some []) apart,
      );
  kept = λ f f' c p h e.
      let path : p ≡ h = cc in
      (
        sym path,
        ap (λ x. x.1.offset) (sym e),
        ap (λ x. x.1.files p) (sym e)
            ∙ put_same f.files p (some (or_empty (f.files p)))
            ∙ ap some (or_empty_elim (f.files p)),
        λ q apart.
            ap (λ x. x.1.files q) (sym e)
            ∙ put_other f.files p q (some (or_empty (f.files p))) apart,
      );
  sought = λ f f' h k e. sought_at f f' k e;
  wrote = λ f f' h b c held inside e.
      let new : Option Bytes = some (overwrite (or_empty (f.files h)) f.offset b) in
      (
        ap (λ x. x.1.files h) (sym e)
            ∙ put_same f.files h new
            ∙ ap (λ x. some (overwrite (or_empty x) f.offset b)) held,
        ap (λ x. x.1.offset) (sym e),
        λ q apart. ap (λ x. x.1.files q) (sym e) ∙ put_other f.files h q new apart,
      );
  removed = λ f f' c p e. (
    ap (λ x. x.1.files p) (sym e) ∙ put_same f.files p none,
    λ q apart. ap (λ x. x.1.files q) (sym e) ∙ put_other f.files p q none apart,
  );
  stated = λ f f' c p n e.
      let (b, held, size) = stat_some (f.files p) n (ap (λ x. x.0) e) in
      (b, held, size, λ q. ap (λ x. x.1.files q) (sym e));
  opened_path = λ f c p h e. found_path f p h (f.files p) e;
  read = λ f h b e. file_read-some f.live (f.files h) b e;
}

pub machine_library-HasSessions : HasSessions machine_library (λ m c. m.live) (λ h. tt)
machine_library-HasSessions = record {
  opened = λ f c p h e. refl;
  dead = λ f c. refl;
  stays_dead = λ f s c e. e;
  unreadable = λ f h e. (failed 7, ap (λ l. file_read l (f.files h)) e);
}

-- The reader of a payload that it gives in one Read, with the end of the file.
abbrev pub payload : Bytes
payload = bytes "dump"

abbrev pub whole_source : Source ℕ
whole_source = record {
  is_seeker = true;
  seek = λ r k. (none, pos_part k);
  read = λ r n. ((drop r payload, some eof), length payload);
}

abbrev pub machine : Setting Machine (Unit {0}) (Unit {0}) Bytes ℕ
machine = record {
  library = machine_library;
  source = whole_source;
  is_done = λ i. false;
  rounds = 2;
  remote_path = λ p. p;
  path_dir = λ p. [];
}

abbrev pub blank : Machine
blank = record { files = λ p. none; offset = 0; live = false }

-- A machine that holds the first two bytes of the payload.
abbrev pub halfway : Machine
halfway = record {
  files = put (λ p. none) (bytes "a") (some (bytes "du"));
  offset = 0;
  live = false;
}
