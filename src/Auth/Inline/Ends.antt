-- ===== src/Auth/Inline/Ends.antt =====
-- When the loop of `resolveExpression` ends.
use backupgate.Prelude.{
  ℕ, zero, suc, ◌+◌, ◌-◌, ◌≤◌, ◌<◌, ◌≡◌, refl, sym, ap, ap₂, ◌∙◌, inl, inr, none, some, [], ◌∷◌,
  ◌++◌, append-nil, arith, ◌==◌, if◌then◌else◌, length, take, drop, length-append, take-append-drop,
  drop_all, drop-drop, drop-length, take-length, Bytes, has_prefix, has_prefix-append,
}
use backupgate.Text.{index_of}
use backupgate.Text.Search.{OccursAt, index_of-lem}
use backupgate.Auth.Inline.{prefix, suffix, resolve_expression}

-- The number of closing braces.
abbrev pub braces : Bytes → ℕ
braces [] = 0
braces (c ∷ s) = (if c == b'}' then 1 else 0) + braces s

braces-append : (s t : Bytes) → braces (s ++ t) ≡ braces s + braces t
braces-append [] t = omega arith
braces-append (c ∷ s) t = omega (arith, braces-append s t)

-- What follows a closing brace has one less.
braces-drop : (k : ℕ) (s : Bytes) → OccursAt s suffix k → suc (braces (drop (suc k) s)) ≤ braces s
unfolding has_prefix
braces-drop zero [] o = cc
braces-drop (suc k) [] o = cc
braces-drop zero (c ∷ s) o = ground arith
braces-drop (suc k) (c ∷ s) o = ground (arith, braces-drop k s o)

braces-take-drop : (k : ℕ) (s : Bytes) → braces s ≡ braces (take k s) + braces (drop k s)
braces-take-drop k s = ap braces (sym (take-append-drop k s)) ∙ braces-append (take k s) (drop k s)

-- A round takes one closing brace away.
braces-round :
    (start k : ℕ) (s value : Bytes)
    → OccursAt (drop start s) suffix k
    → braces value ≡ 0
    → braces (take start s ++ (value ++ drop (k + start + 1) s)) < braces s
braces-round start k s value o h = omega (
  arith,
  braces-append (take start s) (value ++ drop (k + start + 1) s),
  braces-append value (drop (k + start + 1) s),
  braces-take-drop start s,
  braces-drop k (drop start s) o,
  ap braces (drop-drop start (suc k) s),
  ap (λ i. braces (drop i s)) {x = start + suc k} {y = k + start + 1} (omega arith),
)

-- `resolveExpression` ends, after at most one round for each closing brace and one more, if no value
-- of the environment has a closing brace.
pub resolve_expression-ends :
    (fuel : ℕ) (getenv : Bytes → Bytes) (s : Bytes)
    → ((name : Bytes) → braces (getenv name) ≡ 0)
    → braces s < fuel
    → (r : Bytes) × (resolve_expression fuel getenv s ≡ some r)
unfolding resolve_expression
resolve_expression-ends zero getenv s h enough = absurd (omega arith)
resolve_expression-ends (suc fuel) getenv s h enough = elim (index_of-lem s prefix) [
  | inl (e, _) ↦ (s, rw (e, resolve_expression))
  | inr (start, e, _, _, _) ↦ elim (index_of-lem (drop start s) suffix) [
    | inl (f, _) ↦ (s, rw (e, f, resolve_expression))
    | inr (k, f, le, o, _) ↦
        let (r, run) =
          resolve_expression-ends fuel getenv
            (take start s
              ++ (getenv
                    (take (k + start - (start + length prefix)) (drop (start + length prefix) s))
                  ++ drop (k + start + 1) s))
            h
            (omega (
              arith,
              braces-round start k s
                  (getenv
                    (take (k + start - (start + length prefix)) (drop (start + length prefix) s)))
                  o (h _),
            )) in
        (r, rw (e, f, resolve_expression) run)
  ]
]

no_brace : (k : ℕ) (s t : Bytes) → braces s ≡ 0 → k < length s → ¬ OccursAt (s ++ t) suffix k
unfolding has_prefix
no_brace k [] t h lt o = absurd (omega arith)
no_brace zero (c ∷ s) t h lt o = ground arith
no_brace (suc k) (c ∷ s) t h lt o = no_brace k s t (omega arith) (omega arith) o

brace_at : (s t : Bytes) → OccursAt (s ++ b'}' ∷ t) suffix (length s)
unfolding has_prefix
brace_at s t = ap (has_prefix suffix) (drop-length s (b'}' ∷ t))

-- The first closing brace behind a text without one.
index_of-append : (s t : Bytes) → braces s ≡ 0 → index_of (s ++ b'}' ∷ t) suffix ≡ some (length s)
index_of-append s t h = elim (index_of-lem (s ++ b'}' ∷ t) suffix) [
  | inl (e, no_place) ↦
      absurd (no_place (length s) (omega (arith, length-append s (b'}' ∷ t))) (brace_at s t))
  | inr (k, e, le, o, least) ↦
      e
      ∙ ap some (
          omega (
            arith,
            λ (lt : k < length s). no_brace k s (b'}' ∷ t) h lt o,
            λ (lt : length s < k). least (length s) lt (brace_at s t),
          ))
]

abbrev pub expression : Bytes → Bytes
expression name = prefix ++ (name ++ suffix)

prefix_at_start : (s : Bytes) → index_of (prefix ++ s) prefix ≡ some 0
prefix_at_start s = elim (index_of-lem (prefix ++ s) prefix) [
  | inl (e, no_place) ↦ absurd (no_place 0 (omega arith) (has_prefix-append prefix s))
  | inr (zero, e, le, o, least) ↦ e
  | inr (suc k, e, le, o, least) ↦ absurd (least 0 (omega arith) (has_prefix-append prefix s))
]

resolve_expression-next :
    (fuel : ℕ) (getenv : Bytes → Bytes) (s : Bytes) (start k : ℕ)
    → index_of s prefix ≡ some start
    → index_of (drop start s) suffix ≡ some k
    → resolve_expression (suc fuel) getenv s
      ≡ resolve_expression fuel getenv (
          take start s
          ++ (getenv (take (k + start - (start + length prefix)) (drop (start + length prefix) s))
              ++ drop (k + start + 1) s))
unfolding resolve_expression
resolve_expression-next fuel getenv s start k e f = rw (e, f, resolve_expression)

-- One round on an expression puts the variable's value in its place.
resolve_expression-step :
    (fuel : ℕ) (getenv : Bytes → Bytes) (name : Bytes)
    → braces name ≡ 0
    → resolve_expression (suc fuel) getenv (expression name)
      ≡ resolve_expression fuel getenv (getenv name ++ [])
resolve_expression-step fuel getenv name h =
    resolve_expression-next fuel getenv (expression name) 0 (length (prefix ++ name))
      (prefix_at_start (name ++ suffix)) (index_of-append (prefix ++ name) [] (omega arith))
    ∙ ap₂ (λ v r. resolve_expression fuel getenv (getenv v ++ r)) variable nothing
  where
    variable :
        take
          (length (prefix ++ name) + 0 - (0 + length prefix))
          (drop (0 + length prefix) (expression name))
        ≡ name
    variable =
        ap (λ n. take n (name ++ suffix)) {x = length (prefix ++ name) + 0 - (0 + length prefix)}
          {y = length name} (omega arith)
        ∙ take-length name suffix

    nothing : drop (length (prefix ++ name) + 0 + 1) (expression name) ≡ []
    nothing = drop_all _ (expression name) (omega (arith, length-append name suffix))

-- A variable whose value is the expression of that variable: the loop runs on, whatever the fuel.
pub resolve_expression-diverges :
    (fuel : ℕ) (getenv : Bytes → Bytes) (name : Bytes)
    → braces name ≡ 0
    → getenv name ≡ expression name
    → resolve_expression fuel getenv (expression name) ≡ none
unfolding resolve_expression
resolve_expression-diverges zero getenv name h e = refl
resolve_expression-diverges (suc fuel) getenv name h e =
    resolve_expression-step fuel getenv name h
    ∙ ap (resolve_expression fuel getenv) (append-nil (getenv name) ∙ e)
    ∙ resolve_expression-diverges fuel getenv name h e
