-- ===== src/Server/Listeners.antt =====
-- internal/server/server.go: the start and the end of the listeners, and the answers of the debug
-- server.
use backupgate.Prelude.{
  ℕ, Bool, not, Option, none, some, List, [], ◌∷◌, ◌++◌, if◌then◌else◌, Bytes, bytes, str_eq,
}
pub mod Start
pub mod Stop
use backupgate.Config.Types.{header_mode, port_mode, ListenConfig, ApiConfig, ServerConfig}

-- What a server serves.
pub data Service : Type 0 where
  debug_service header_service http_service s3_service : Service

-- The errors of `Start`.
pub data StartError : Type 0 where
  cannot_listen : Service → StartError
  unknown_mode : Bytes → StartError

-- How `Start` ends; `panicked` is a nil `S3` or `HTTP` of the configuration.
pub data Started : Type 0 where
  started panicked : Started
  failed : StartError → Started

-- `Server`: its field `servers`, by their addresses, the addresses that are listened on, and the
-- services that run in a goroutine, with their addresses.
pub record Server : Type 0 where
  pub servers : List Bytes
  pub listening : List Bytes
  pub serving : List (Service × Bytes)

-- `NewServer`
abbrev pub new_server : Server
new_server = record { servers = []; listening = []; serving = [] }

-- `listener.Close()`
pub close_listener : Bytes → List Bytes → List Bytes
close_listener addr [] = []
close_listener addr (a ∷ as') =
    let rest = close_listener addr as' in if str_eq a addr then as' else a ∷ rest

-- The calls of a listener: `can_listen s addr` is that `net.Listen` succeeds.
module _ (can_listen : List Bytes → Bytes → Bool) where
  -- A server of one listener: `startDebugServer` behind its test, and `startHeaderMode`.
  pub start_one : Service → Bytes → Server → Started × Server
  start_one service addr s =
      if can_listen s.listening addr
      then (
        started,
        record {
          servers = s.servers ++ (addr ∷ []);
          listening = addr ∷ s.listening;
          serving = (service, addr) ∷ s.serving;
        },
      )
      else (failed (cannot_listen service), record s { servers = s.servers ++ (addr ∷ []) })

  -- `startDebugServer`
  pub start_debug_server : Option ListenConfig → Server → Started × Server
  unfolding start_one
  start_debug_server none s = (started, s)
  start_debug_server (some debug) s = start_one debug_service debug.listen s

  -- `startPortMode` of its two addresses.
  pub start_ports : Bytes → Bytes → Server → Started × Server
  unfolding close_listener
  start_ports http s3 s =
      let servers = s.servers ++ (http ∷ s3 ∷ []) in
      if not (can_listen s.listening http)
      then (failed (cannot_listen http_service), record s { servers = servers })
      else if not (can_listen (http ∷ s.listening) s3)
      then (
        failed (cannot_listen s3_service),
        record s { servers = servers; listening = close_listener http (http ∷ s.listening) },
      )
      else (
        started,
        record {
          servers = servers;
          listening = s3 ∷ http ∷ s.listening;
          serving = (s3_service, s3) ∷ (http_service, http) ∷ s.serving;
        },
      )

  -- `startPortMode`
  pub start_port_mode : ApiConfig → Server → Started × Server
  unfolding start_ports
  start_port_mode api s = elim api.http [
    | none ↦ (panicked, s)
    | some http ↦ elim api.s3 [
      | none ↦ (panicked, s)
      | some s3 ↦ start_ports http.listen s3.listen s
    ]
  ]

  -- The switch of `Start` on the mode.
  pub start_api : ApiConfig → Server → Started × Server
  unfolding start_port_mode start_one
  start_api api s =
      if str_eq api.mode header_mode
      then start_one header_service api.listen s
      else if str_eq api.mode port_mode
      then start_port_mode api s
      else (failed (unknown_mode api.mode), s)

  -- `Start`
  pub start : ServerConfig → Server → Started × Server
  unfolding start_debug_server start_api
  start cfg s =
      let (first, s₁) = start_debug_server cfg.debug s in
      elim first [
        | started ↦ start_api cfg.api s₁
        | panicked ↦ (panicked, s₁)
        | failed e ↦ (failed e, s₁)
      ]

module _ {E : Type 0} (shutdown_server : Bytes → Option E) where
  -- The loop of `Shutdown`: the last error, behind that so far.
  pub last_error : Option E → List Bytes → Option E
  last_error last [] = last
  last_error last (srv ∷ servers) =
      last_error (elim (shutdown_server srv) [ none ↦ last | some e ↦ some e ]) servers

  -- `Shutdown`; `ended` is what ends the wait for the goroutines: nothing, or the context's error.
  pub shutdown : Option E → Server → Option E
  unfolding last_error
  shutdown ended s = elim (last_error none s.servers) [ none ↦ ended | some e ↦ some e ]

-- The answers of the debug server: a status, and its health, which is DOWN with an error.
pub data DebugAnswer : Type 0 where
  not_allowed up version : DebugAnswer
  down : Bytes → DebugAnswer

-- `handleDebugHealth`, for the error of the health check, and its status.
pub handle_debug_health : Bytes → Option (Option Bytes) → ℕ × DebugAnswer
handle_debug_health method check =
    if not (str_eq method (bytes "GET"))
    then (405, not_allowed)
    else elim check [ none ↦ (200, up) | some none ↦ (200, up) | some (some e) ↦ (503, down e) ]

-- `handleDebugVersion`
pub handle_debug_version : Bytes → ℕ × DebugAnswer
handle_debug_version method =
    if not (str_eq method (bytes "GET")) then (405, not_allowed) else (200, version)
