-- ===== src/Server/Tests.antt =====
-- Runs of the servers.
use backupgate.Prelude.{
  ℕ, ◌+◌, ◌≡◌, refl, ◌⊎◌, inr, Bool, true, false, not, Option, none, some, List, [], ◌∷◌,
  if◌then◌else◌, Bytes, bytes, str_eq, has_prefix,
}
use backupgate.Config.Types.{header_mode, port_mode, ServerConfig}
use backupgate.Auth.Chain.{Chain}
use backupgate.Api.Aws.{Library, header_get, algorithm}
use backupgate.Api.Aws.Signed.{IsSigned}
use backupgate.Api.Aws.Tests.{signed_request}
use backupgate.Server.Router.{
  Call, write_header, write, new_router, serve_http, serve_http-IsSigned,
}
use backupgate.Server.Listeners.{Server, new_server, start}
use backupgate.Server.Listeners.Start.{
  NoLeak, DebugRefused, Opens, Ended, api_plan, api_services, debug_services, start-Ended,
}

abbrev refusal : List Call
refusal = write_header 403 ∷ write (bytes "no") ∷ []

abbrev to_s3 : ℕ → Bool × ℕ
to_s3 w = (true, w)

abbrev to_http : ℕ → Bool × ℕ
to_http w = (false, w + 1)

serve_http-IsSigned_example :
    ((serve_http
          (new_router header_mode)
          to_s3
          to_http
          false
          (header_get signed_request (bytes "Authorization"))
          0
        ≡ to_s3 0)
      × (has_prefix algorithm (header_get signed_request (bytes "Authorization")) ≡ true))
    ⊎ ((serve_http
            (new_router header_mode)
            to_s3
            to_http
            false
            (header_get signed_request (bytes "Authorization"))
            0
          ≡ to_http 0)
        × ((lib : Library) (chain : Chain) (u : Bytes) → ¬ IsSigned lib chain signed_request u))
serve_http-IsSigned_example = serve_http-IsSigned header_mode to_s3 to_http false signed_request 0

abbrev ports : ServerConfig
ports = record {
  api = record {
    mode = port_mode;
    listen = [];
    s3 = some (record { listen = bytes ":9000" });
    http = some (record { listen = bytes ":8080" });
  };
  debug = some (record { listen = bytes ":6060" });
}

-- The port of S3 is taken.
abbrev not_9000 : List Bytes → Bytes → Bool
not_9000 open_ones addr = not (str_eq addr (bytes ":9000"))

start-Ended_example :
    let out = start not_9000 ports new_server in
    NoLeak out.1
    × (DebugRefused not_9000 ports.debug out
        ⊎ (Opens not_9000 [] (debug_services ports.debug)
            × Ended not_9000
                (bytes ":6060" ∷ [])
                (api_plan ports.api)
                (api_services ports.api (debug_services ports.debug))
                (debug_services ports.debug)
                out))
start-Ended_example = start-Ended not_9000 ports (inr (refl, λ e. cc, λ e. cc))

abbrev two_servers : Server
two_servers = record { servers = bytes ":1" ∷ bytes ":2" ∷ []; listening = []; serving = [] }

abbrev stops : Bytes → Option ℕ
stops srv = if str_eq srv (bytes ":1") then some 7 else none
