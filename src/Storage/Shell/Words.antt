-- ===== src/Storage/Shell/Words.antt =====
-- How a POSIX shell reads the command back.
use backupgate.Prelude.{
  ℕ, ◌≡◌, refl, sym, ap, ◌∙◌, ◌≢◌, ◌⊎◌, inl, inr, false, ◌&&◌, Option, none, some, List, [], ◌∷◌,
  ◌++◌, map, append-nil, append_assoc, arith, leb, ◌==◌, if◌then◌else◌, ◌>>=◌, Bytes, bytes,
}
use backupgate.Storage.Shell.{escape_quotes, shell_quote, join, remote_rsync_command}

-- The bytes that the shell's grammar of words tells apart; `other` is every byte that may have a
-- meaning of its own outside quotes.
pub data Class : Type 0 where
  blank quote backslash letter other : Class

pub class_of : ℕ → Class
class_of c =
    if c == b' '
    then blank
    else if c == b'\''
    then quote
    else if c == b'\\'
    then backslash
    else if leb b'a' c && leb c b'z'
    then letter
    else other

-- Where the reader stands: between words, in a word, behind a backslash, inside single quotes.
pub data Mode : Type 0 where
  between in_word escaped quoted : Mode

-- The words of a command line, with the word read so far: a backslash takes the next byte as it is,
-- single quotes take everything up to the next quote, and a blank ends a word. `none` is a line that
-- is not finished, or has a byte outside quotes that is no letter.
pub words : Mode → Bytes → Bytes → Option (List Bytes)
words between w [] = some []
words in_word w [] = some (w ∷ [])
words escaped w [] = none
words quoted w [] = none
words between w (c ∷ s) = elim (class_of c) [
  | blank ↦ words between [] s
  | quote ↦ words quoted [] s
  | backslash ↦ words escaped [] s
  | letter ↦ words in_word (c ∷ []) s
  | other ↦ none
]
words in_word w (c ∷ s) = elim (class_of c) [
  | blank ↦ (do rest ← words between [] s; some (w ∷ rest))
  | quote ↦ words quoted w s
  | backslash ↦ words escaped w s
  | letter ↦ words in_word (w ++ c ∷ []) s
  | other ↦ none
]
words escaped w (c ∷ s) = words in_word (w ++ c ∷ []) s
words quoted w (c ∷ s) = elim (class_of c) [
  | quote ↦ words in_word w s
  | blank ↦ words quoted (w ++ c ∷ []) s
  | backslash ↦ words quoted (w ++ c ∷ []) s
  | letter ↦ words quoted (w ++ c ∷ []) s
  | other ↦ words quoted (w ++ c ∷ []) s
]

class_of-quote : (c : ℕ) → (c ≡ b'\'') ⊎ ((c == b'\'' ≡ false) × (class_of c ≢ quote))
unfolding class_of
class_of-quote c = ground arith

words-quoted :
    (w : Bytes) (c : ℕ) (s : Bytes)
    → class_of c ≢ quote
    → words quoted w (c ∷ s) ≡ words quoted (w ++ c ∷ []) s
unfolding words
words-quoted w c s h = ground arith

-- Inside quotes the escaped text reads as the text itself.
words-escape_quotes :
    (s w tail : Bytes) → words quoted w (escape_quotes s ++ tail) ≡ words quoted (w ++ s) tail
unfolding words escape_quotes class_of
words-escape_quotes [] w tail = ap (λ v. words quoted v tail) (sym (append-nil w))
words-escape_quotes (c ∷ s) w tail = elim (class_of-quote c) [
  | inl e ↦ rw e (
      words-escape_quotes s (w ++ b'\'' ∷ []) tail
      ∙ ap (λ v. words quoted v tail) (append_assoc w (b'\'' ∷ []) s))
  | inr (e, n) ↦
      ap
        (λ b.
          words quoted w
            ((if b then bytes "'\\''" ++ escape_quotes s else c ∷ escape_quotes s) ++ tail))
        e
      ∙ words-quoted w c (escape_quotes s ++ tail) n
      ∙ words-escape_quotes s (w ++ c ∷ []) tail
      ∙ ap (λ v. words quoted v tail) (append_assoc w (c ∷ []) s)
]

words-shell_quote :
    (s w tail : Bytes) → words in_word w (shell_quote s ++ tail) ≡ words in_word (w ++ s) tail
unfolding words shell_quote class_of
words-shell_quote s w tail =
    ap (λ t. words quoted w t) (append_assoc (escape_quotes s) (bytes "'") tail)
    ∙ words-escape_quotes s w (bytes "'" ++ tail)

-- The quoted arguments, with a blank in front of each.
abbrev quoted_tail : List Bytes → Bytes
quoted_tail [] = []
quoted_tail (a ∷ rest) = b' ' ∷ (shell_quote a ++ quoted_tail rest)

join-quoted_tail :
    (w : Bytes) (args : List Bytes)
    → join (bytes " ") (w ∷ map shell_quote args) ≡ w ++ quoted_tail args
unfolding join
join-quoted_tail w [] = sym (append-nil w)
join-quoted_tail w (a ∷ rest) = ap (λ t. w ++ (b' ' ∷ t)) (join-quoted_tail (shell_quote a) rest)

words-quoted_tail :
    (w : Bytes) (args : List Bytes) → words in_word w (quoted_tail args) ≡ some (w ∷ args)
unfolding words class_of shell_quote
words-quoted_tail w [] = refl
words-quoted_tail w (a ∷ rest) =
    ap (λ (o : Option (List Bytes)). do more ← o; some (w ∷ more))
      (words-shell_quote a [] (quoted_tail rest) ∙ words-quoted_tail a rest)

-- The command of `remoteRsyncCommand` is read by the shell as "rsync" and exactly the arguments given,
-- one word each, whatever bytes they have.
pub words-remote_rsync_command :
    (args : List Bytes) → words between [] (remote_rsync_command args) ≡ some (bytes "rsync" ∷ args)
unfolding words remote_rsync_command class_of
words-remote_rsync_command args =
    ap (λ t. words between [] t) (join-quoted_tail (bytes "rsync") args)
    ∙ words-quoted_tail (bytes "rsync") args
