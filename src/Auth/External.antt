-- ===== src/Auth/External.antt =====
-- internal/auth/external.go: an external program decides.
use backupgate.Prelude.{
  zero, ◌+◌, ◌<◌, ◌≡◌, sym, ap, subst, ◌↔◌, Option, none, some, List, [], map, arith, if◌then◌else◌,
  length, Bytes, bytes,
}
use backupgate.Prelude.Int.{ℤ, pos, negsuc, ltb_ℤ}
use backupgate.Text.{replace_all}
use backupgate.Text.Replace.{Replaced, replace_all-Replaced}
use backupgate.Auth.Types.{AuthRequest, timed_out, exited, AuthResult, granted, denied}

-- `ExternalProvider`; the timeout is in nanoseconds.
pub record ExternalProvider : Type 0 where
  pub command : Bytes
  pub args : List Bytes
  pub timeout : ℤ

-- How the program ended: in time with an exit code, in time without one (it did not start, or was
-- killed), or not before the deadline.
pub data Ending : Type 0 where
  exit_code : ℤ → Ending
  no_exit_code deadline : Ending

-- `replaceAll`, with fuel that is enough for a placeholder; the default is never taken.
replace_placeholder : Bytes → Bytes → Bytes → Bytes
replace_placeholder s old new = elim (replace_all (length s + 1) [] s old new) [
  | some r ↦ r
  | none ↦ s
]

-- The body of the loop of `buildArgs`.
pub build_arg : AuthRequest → Bytes → Bytes
unfolding replace_placeholder
build_arg req arg =
    let with_user = replace_placeholder arg (bytes "%u") req.username in
    let with_password = replace_placeholder with_user (bytes "%p") req.password in
    replace_placeholder with_password (bytes "%k") req.key

-- `buildArgs`
pub build_args : ExternalProvider → AuthRequest → List Bytes
build_args p req = map (build_arg req) p.args

-- `Authenticate`; `run` is `exec.CommandContext(...).CombinedOutput()` under the timeout, a positive
-- one only.
pub authenticate :
    (Option ℤ → Bytes → List Bytes → Ending) → ExternalProvider → AuthRequest → AuthResult
authenticate run p req =
    elim (run (if ltb_ℤ (pos 0) p.timeout then some p.timeout else none) p.command
      (build_args p req)) [
        | deadline ↦ denied (timed_out p.command)
        | no_exit_code ↦ denied (exited p.command (negsuc 0))
        | exit_code (pos zero) ↦ granted req.username
        | exit_code c ↦ denied (exited p.command c)
      ]

-- The program is asked once, and access is granted, to the user of the request, exactly if it ends in
-- time with the exit code 0.
pub authenticate-exit_code_iff :
    (run : Option ℤ → Bytes → List Bytes → Ending) (p : ExternalProvider) (req : AuthRequest)
    (u : Bytes)
    → (authenticate run p req ≡ granted u) ↔ (
        (u ≡ req.username)
        × (run
              (if ltb_ℤ (pos 0) p.timeout then some p.timeout else none)
              p.command
              (build_args p req)
            ≡ exit_code (pos 0)))
unfolding authenticate
authenticate-exit_code_iff run p req u = ground arith

replace_placeholder-Replaced :
    (s old new : Bytes) → 0 < length old → Replaced old new s (replace_placeholder s old new)
unfolding replace_placeholder
replace_placeholder-Replaced s old new h =
    let (r, run, done) = replace_all-Replaced (length s + 1) s old new h (omega arith) in
    subst (Replaced old new s) (ap (λ o. elim o [ some r ↦ r | none ↦ s ]) (sym run)) done

-- Every argument is the template with "%u" replaced by the user's name, then "%p" by the password,
-- then "%k" by the key, each in the result of the one before.
pub build_arg-Replaced :
    (req : AuthRequest) (arg : Bytes)
    → (a b : Bytes) × Replaced (bytes "%u") req.username arg a
      × Replaced (bytes "%p") req.password a b
      × Replaced (bytes "%k") req.key b (build_arg req arg)
unfolding build_arg
build_arg-Replaced req arg = (
  _,
  _,
  replace_placeholder-Replaced arg (bytes "%u") req.username (omega arith),
  replace_placeholder-Replaced _ (bytes "%p") req.password (omega arith),
  replace_placeholder-Replaced _ (bytes "%k") req.key (omega arith),
)
