-- ===== src/Api/Handler/Brackets.antt =====
-- The order of the events of a handler: locks are released, buffers are closed, and the pipeline runs
-- under the lock of its key only, on an open buffer if it reads one.
use backupgate.Prelude.{
  ◌≡◌, refl, ap, ◌∙◌, Bool, true, false, not, ◌&&◌, Option, none, some, List, [], ◌∷◌, ◌++◌, arith,
  if◌then◌else◌, Bytes, str_eq, str_eq_refl,
}
use backupgate.Config.Types.{KeyConfig}
use backupgate.Pipeline.Types.{UploadMetadata}
use backupgate.Api.Handler.{
  streaming, buffered, Event, locked, unlocked, opened, closed, processed, user_set, Handler,
  process_body, upload_body, with_key_lock,
}

-- The key whose lock is held, and whether a buffer is open.
abbrev pub Held : Type 0
Held = Option Bytes × Bool

abbrev pub free : Held
free = (none, false)

-- An event is allowed in a state and leads to the next one, or it is not.
pub allow : Held → Event → Option Held
allow (none, open_buffer) (locked k) = if open_buffer then none else some (some k, false)
allow (some key, open_buffer) (locked k) = none
allow (none, open_buffer) (unlocked k) = none
allow (some key, open_buffer) (unlocked k) =
    if str_eq k key && not open_buffer then some (none, false) else none
allow (none, open_buffer) opened = none
allow (some key, open_buffer) opened = if open_buffer then none else some (some key, true)
allow (none, open_buffer) closed = none
allow (some key, open_buffer) closed = if open_buffer then some (some key, false) else none
allow (none, open_buffer) (processed k body detached) = none
allow (some key, open_buffer) (processed k streaming detached) =
    if str_eq k key && not open_buffer then some (some key, false) else none
allow (some key, open_buffer) (processed k buffered detached) =
    if str_eq k key && open_buffer then some (some key, true) else none
allow (none, open_buffer) (user_set u) = some (none, open_buffer)
allow (some key, open_buffer) (user_set u) = none

pub run : Held → List Event → Option Held
unfolding allow
run s [] = some s
run s (e ∷ es) = elim (allow s e) [ none ↦ none | some s' ↦ run s' es ]

-- The events may happen in their order, and leave no lock held and no buffer open.
abbrev pub IsBracketed : List Event → Type 0
IsBracketed es = run free es ≡ some free

pub run-append :
    (s : Held) (xs ys : List Event) (s' : Held) → run s xs ≡ some s' → run s (xs ++ ys) ≡ run s' ys
unfolding run
run-append s [] ys s' h = let same : s ≡ s' = cc in ap (λ x. run x ys) same
run-append s (e ∷ es) ys s' h = go (allow s e) (λ x. run-append x es ys s') h
  where
    go :
        (o : Option Held)
        → ((x : Held) → run x es ≡ some s' → run x (es ++ ys) ≡ run s' ys)
        → ◌≡◌ {A = Option Held} (elim o [ none ↦ none | some x ↦ run x es ]) (some s')
        → ◌≡◌ {A = Option Held} (elim o [ none ↦ none | some x ↦ run x (es ++ ys) ]) (run s' ys)
    go none rec k = cc
    go (some x) rec k = rec x k

module _ {W : Type 0} (h : Handler W) where
  -- Under the lock of its key, the events of a body are allowed, and leave the lock held and no buffer
  -- open.
  pub upload_body-run :
      (key : Bytes) (k : KeyConfig) (m : UploadMetadata) (w : W)
      → run (some key, false) (upload_body h key k m w).1 ≡ some (some key, false)
  unfolding upload_body process_body run allow
  upload_body-run key k m w = ground (arith, str_eq_refl key)

-- What keeps to the order under the lock of a key keeps to it with the lock.
pub with_key_lock-IsBracketed :
    {W A : Type 0}
    → (key : Bytes) (act : W → A × List Event × W) (w : W)
    → run (some key, false) (act w).1 ≡ some (some key, false)
    → IsBracketed (with_key_lock key act w).1
unfolding run allow
with_key_lock-IsBracketed key act w h =
    run-append (some key, false) (act w).1 (unlocked key ∷ []) (some key, false) h
    ∙ ground (arith, str_eq_refl key)

-- A handler that does nothing keeps to the order, and a user may be set in front of everything.
pub nil-IsBracketed : IsBracketed []
unfolding run
nil-IsBracketed = refl

pub user_set-IsBracketed :
    (u : Bytes) (es : List Event) → IsBracketed es → IsBracketed (user_set u ∷ es)
unfolding run allow
user_set-IsBracketed u es h = h

pub run-nil : (s : Held) → run s [] ≡ some s
unfolding run
run-nil s = refl
