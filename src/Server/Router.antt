-- ===== src/Server/Router.antt =====
-- internal/server/router.go: the protocol of a request, and the status that the log records.
use backupgate.Prelude.{
  ℕ, ◌<◌, ◌≡◌, refl, sym, ap, ◌∙◌, ◌⊎◌, inl, inr, true, false, not, List, [], ◌∷◌, ◌++◌, arith,
  ◌==◌, if◌then◌else◌, Bool-cases, Bytes, bytes, str_eq, has_prefix,
}
use backupgate.Auth.Chain.{Chain}
use backupgate.Api.Aws.{Library, SignedRequest, header_get, algorithm}
use backupgate.Api.Aws.Signed.{IsSigned}

abbrev pub s3 : Bytes
s3 = bytes "s3"

abbrev pub http : Bytes
http = bytes "http"

-- `Router`, less its handler: the protocol that is forced, if it is not empty.
pub record Router : Type 0 where
  pub mode : Bytes
  pub force_protocol : Bytes

-- `NewRouter`
pub new_router : Bytes → Router
new_router mode = record { mode = mode; force_protocol = [] }

-- `detectProtocol`, of the header `Authorization`.
pub detect_protocol : Router → Bytes → Bytes
detect_protocol r authorization =
    if not (str_eq r.force_protocol [])
    then r.force_protocol
    else if has_prefix algorithm authorization
    then s3
    else http

-- The switch of `ServeHTTP` on the protocol, for handlers that answer on the state `W`; the third
-- answer is that of no protocol.
pub dispatch : {W A : Type 0} → (W → A × W) → (W → A × W) → A → Bytes → W → A × W
dispatch handle_s3 handle_http refused protocol w =
    if str_eq protocol s3
    then handle_s3 w
    else if str_eq protocol http
    then handle_http w
    else (refused, w)

-- `Router.ServeHTTP`, less its log.
pub serve_http : {W A : Type 0} → Router → (W → A × W) → (W → A × W) → A → Bytes → W → A × W
unfolding detect_protocol dispatch
serve_http r handle_s3 handle_http refused authorization w =
    dispatch handle_s3 handle_http refused (detect_protocol r authorization) w

-- A call of an http.ResponseWriter: `WriteHeader` of a status, or a Write.
pub data Call : Type 0 where
  write_header : ℕ → Call
  write : Bytes → Call

-- `statusResponseWriter.WriteHeader` and `Write`: the field `statusCode` behind the calls.
pub record_status : ℕ → List Call → ℕ
record_status status [] = status
record_status status (write_header n ∷ calls) = record_status n calls
record_status status (write p ∷ calls) = record_status (if status == 0 then 200 else status) calls

-- The status that net/http sends: that of the first call, and 200 without one.
pub sent_status : List Call → ℕ
sent_status [] = 200
sent_status (write_header n ∷ calls) = n
sent_status (write p ∷ calls) = 200

-- Only bodies are written.
abbrev pub BodyOnly : List Call → Type 0
BodyOnly [] = Unit
BodyOnly (write_header n ∷ calls) = ⊥
BodyOnly (write p ∷ calls) = BodyOnly calls

-- A response that writes its header once, first or not at all, and something.
abbrev pub IsResponse : List Call → Type 0
IsResponse [] = ⊥
IsResponse (write_header n ∷ calls) = (0 < n) × BodyOnly calls
IsResponse (write p ∷ calls) = BodyOnly calls

record_status-BodyOnly :
    (status : ℕ) (calls : List Call)
    → 0 < status
    → BodyOnly calls
    → record_status status calls ≡ status
unfolding record_status
record_status-BodyOnly status [] some_status b = refl
record_status-BodyOnly status (write_header n ∷ calls) some_status b = elim b [ ]
record_status-BodyOnly status (write p ∷ calls) some_status b =
    let kept : (if status == 0 then 200 else status) ≡ status = ground arith in
    ap (λ s. record_status s calls) kept ∙ record_status-BodyOnly status calls some_status b

-- For a response that writes its header at most once, before all else, the status that the log records
-- is the one that is sent.
pub record_status-sent :
    (calls : List Call) → IsResponse calls → record_status 0 calls ≡ sent_status calls
unfolding record_status sent_status
record_status-sent [] h = elim h [ ]
record_status-sent (write_header n ∷ calls) h = record_status-BodyOnly n calls h.0 h.1
record_status-sent (write p ∷ calls) h = record_status-BodyOnly 200 calls (omega arith) h

prefix-longer : (p q s : Bytes) → has_prefix (p ++ q) s ≡ true → has_prefix p s ≡ true
unfolding has_prefix
prefix-longer [] q s h = refl
prefix-longer (a ∷ p) q [] h = cc
prefix-longer (a ∷ p) q (c ∷ s) h = ground (arith, prefix-longer p q s)

-- Without a forced protocol, every request goes to one of the two handlers: one that is signed, by
-- any user of any chain, to that of the S3 protocol, and one that is not for AWS4-HMAC-SHA256 to
-- that of the HTTP protocol.
pub serve_http-IsSigned :
    {W A : Type 0}
    → (mode : Bytes) (handle_s3 handle_http : W → A × W) (refused : A) (r : SignedRequest) (w : W)
    → ((serve_http
            (new_router mode)
            handle_s3
            handle_http
            refused
            (header_get r (bytes "Authorization"))
            w
          ≡ handle_s3 w)
        × (has_prefix algorithm (header_get r (bytes "Authorization")) ≡ true))
      ⊎ ((serve_http
              (new_router mode)
              handle_s3
              handle_http
              refused
              (header_get r (bytes "Authorization"))
              w
            ≡ handle_http w)
          × ((lib : Library) (chain : Chain) (u : Bytes) → ¬ IsSigned lib chain r u))
unfolding serve_http new_router detect_protocol dispatch str_eq
serve_http-IsSigned mode handle_s3 handle_http refused r w =
    elim (Bool-cases (has_prefix algorithm (header_get r (bytes "Authorization")))) [
      | inl e ↦ inl (rw e refl, e)
      | inr e ↦ inr (
        rw e refl,
        λ lib chain u signed.
            let absurd : true ≡ false =
              sym (
                prefix-longer algorithm (bytes " ") (header_get r (bytes "Authorization")) signed.0)
              ∙ e in
            cc,
      )
    ]
