-- ===== src/Server/Listeners/Start.antt =====
-- What runs behind a start of the servers, whether it succeeds or not.
use backupgate.Prelude.{
  ◌≡◌, refl, ap, ◌⊎◌, inl, inr, Bool, true, false, Option, none, some, List, [], ◌∷◌, ◌++◌, map,
  if◌then◌else◌, Bool-cases, Bytes, str_eq, str_eq_refl,
}
use backupgate.Config.Types.{header_mode, ListenConfig, ApiConfig, ServerConfig}
use backupgate.Config.Validate.Decides.{IsValidApi, Listens}
use backupgate.Server.Listeners.{
  Service, debug_service, header_service, http_service, s3_service, cannot_listen, Started, started,
  panicked, failed, Server, new_server, close_listener, start_one, start_debug_server, start_ports,
  start_port_mode, start_api, start,
}

-- The services of the debug server that is configured, and those of the API behind `rest`.
abbrev pub debug_services : Option ListenConfig → List (Service × Bytes)
debug_services none = []
debug_services (some c) = (debug_service, c.listen) ∷ []

abbrev listen_of : Option ListenConfig → Bytes
listen_of none = []
listen_of (some c) = c.listen

abbrev pub api_services : ApiConfig → List (Service × Bytes) → List (Service × Bytes)
api_services api rest =
    if str_eq api.mode header_mode
    then (header_service, api.listen) ∷ rest
    else (s3_service, listen_of api.s3) ∷ (http_service, listen_of api.http) ∷ rest

-- Each address that is listened on is served, and no other.
abbrev pub NoLeak : Server → Type 0
NoLeak s = s.listening ≡ map (λ x. x.1) s.serving

-- The services of the API in the order in which `Start` listens for them.
abbrev pub api_plan : ApiConfig → List (Service × Bytes)
api_plan api =
    if str_eq api.mode header_mode
    then (header_service, api.listen) ∷ []
    else (http_service, listen_of api.http) ∷ (s3_service, listen_of api.s3) ∷ []

-- The addresses that are listened on behind those of `plan`, with those in `used` before.
abbrev pub listening_behind : List Bytes → List (Service × Bytes) → List Bytes
listening_behind used [] = used
listening_behind used (x ∷ plan) = listening_behind (x.1 ∷ used) plan

module _ (can_listen : List Bytes → Bytes → Bool) where
  -- Each address of `plan` can be listened on, one after the other.
  abbrev pub Opens : List Bytes → List (Service × Bytes) → Type 0
  Opens used [] = Unit
  Opens used (x ∷ plan) = (can_listen used x.1 ≡ true) × Opens (x.1 ∷ used) plan

  -- The first address of `plan` that cannot be listened on is that of `service`.
  abbrev pub Refuses : List Bytes → List (Service × Bytes) → Service → Type 0
  Refuses used plan service =
      (before : List (Service × Bytes)) × (addr : Bytes) × (after : List (Service × Bytes)) × (plan
        ≡ before ++ ((service, addr) ∷ after))
      × Opens used before
      × (can_listen (listening_behind used before) addr ≡ false)

  -- From the listeners `used` on and with the services `less` running, the services of `plan` were
  -- started, which makes `all`, or the first one refused is the failure and none of them runs.
  abbrev pub Ended :
      List Bytes
      → List (Service × Bytes)
      → List (Service × Bytes)
      → List (Service × Bytes)
      → Started × Server
      → Type 0
  Ended used plan all less out =
      ((out.0 ≡ started) × Opens used plan × (out.1.serving ≡ all))
      ⊎ ((service : Service) × Refuses used plan service
          × (out.0 ≡ failed (cannot_listen service))
          × (out.1.serving ≡ less))

  start_one-Ended :
      (service : Service) (addr : Bytes) (s : Server)
      → NoLeak s
      → let out = start_one can_listen service addr s in
        NoLeak out.1
        × Ended s.listening ((service, addr) ∷ []) ((service, addr) ∷ s.serving) s.serving out
  unfolding start_one
  start_one-Ended service addr s fine = elim (Bool-cases (can_listen s.listening addr)) [
    | inl e ↦ rw e (ap (λ l. addr ∷ l) fine, inl (refl, (refl, tt), refl))
    | inr e ↦ rw e (fine, inr (service, ([], addr, [], refl, tt, e), refl, refl))
  ]

  start_ports-Ended :
      (http s3 : Bytes) (s : Server)
      → NoLeak s
      → let out = start_ports can_listen http s3 s in
        NoLeak out.1
        × Ended s.listening
            ((http_service, http) ∷ (s3_service, s3) ∷ [])
            ((s3_service, s3) ∷ (http_service, http) ∷ s.serving)
            s.serving
            out
  unfolding start_ports close_listener
  start_ports-Ended http s3 s fine = elim (Bool-cases (can_listen s.listening http)) [
    | inr e ↦
        rw e (fine, inr (http_service, ([], http, (s3_service, s3) ∷ [], refl, tt, e), refl, refl))
    | inl e ↦ elim (Bool-cases (can_listen (http ∷ s.listening) s3)) [
      | inr f ↦
          rw (e, f, str_eq_refl http)
            (
              fine,
              inr (s3_service, ((http_service, http) ∷ [], s3, [], refl, (e, tt), f), refl, refl),
            )
      | inl f ↦ rw (e, f) (ap (λ l. s3 ∷ http ∷ l) fine, inl (refl, (refl, (refl, tt)), refl))
    ]
  ]

  start_port_mode-Ended :
      (http s3 : Option ListenConfig) (mode listen : Bytes) (s : Server)
      → Listens s3
      → Listens http
      → NoLeak s
      → let out =
          start_port_mode can_listen
            (record { mode = mode; listen = listen; s3 = s3; http = http })
            s in
        NoLeak out.1
        × Ended s.listening
            ((http_service, listen_of http) ∷ (s3_service, listen_of s3) ∷ [])
            ((s3_service, listen_of s3) ∷ (http_service, listen_of http) ∷ s.serving)
            s.serving
            out
  unfolding start_port_mode
  start_port_mode-Ended none s3 mode listen s a b fine = elim b [ ]
  start_port_mode-Ended (some h) none mode listen s a b fine = elim a [ ]
  start_port_mode-Ended (some h) (some c) mode listen s a b fine =
      start_ports-Ended h.listen c.listen s fine

  start_api-Ended :
      (api : ApiConfig) (s : Server)
      → IsValidApi api
      → NoLeak s
      → let out = start_api can_listen api s in
        NoLeak out.1 × Ended s.listening (api_plan api) (api_services api s.serving) s.serving out
  unfolding start_api str_eq
  start_api-Ended api s (inl (mode, there)) fine =
      rw (mode, start_api) (start_one-Ended header_service api.listen s fine)
  start_api-Ended api s (inr (mode, s3, http)) fine =
      rw (mode, start_api)
        (start_port_mode-Ended api.http api.s3 api.mode api.listen s s3 http fine)

  -- The address of the debug server cannot be listened on, and nothing runs.
  abbrev pub DebugRefused : Option ListenConfig → Started × Server → Type 0
  DebugRefused none out = ⊥
  DebugRefused (some c) out =
      (can_listen [] c.listen ≡ false)
      × (out.0 ≡ failed (cannot_listen debug_service))
      × (out.1.serving ≡ [])

  -- For an API that `Validate` accepts, `Start` does not panic, and an unknown mode does not arise. It
  -- succeeds if every address, of the debug server and then of the mode, can be listened on in turn,
  -- and then all of them are served; or it fails for the first one that cannot, and then no service of
  -- the API runs, while a debug server that was started before keeps running. In every case the
  -- addresses listened on are exactly those that are served.
  pub start-Ended :
      (cfg : ServerConfig)
      → IsValidApi cfg.api
      → let out = start can_listen cfg new_server in
        NoLeak out.1
        × (DebugRefused cfg.debug out
            ⊎ (Opens [] (debug_services cfg.debug)
                × Ended
                    (map (λ x. x.1) (debug_services cfg.debug))
                    (api_plan cfg.api)
                    (api_services cfg.api (debug_services cfg.debug))
                    (debug_services cfg.debug)
                    out))
  unfolding start start_debug_server start_one
  start-Ended cfg valid = go cfg.debug
    where
      Result : Option ListenConfig → Started × Server → Type 0
      Result d out =
          NoLeak out.1
          × (DebugRefused d out
              ⊎ (Opens [] (debug_services d)
                  × Ended (map (λ x. x.1) (debug_services d)) (api_plan cfg.api)
                      (api_services cfg.api (debug_services d)) (debug_services d) out))

      go :
          (d : Option ListenConfig)
          → Result d (start can_listen (record { api = cfg.api; debug = d }) new_server)
      go none =
          let (fine, ended) = start_api-Ended cfg.api new_server valid refl in
          (fine, inr (tt, ended))
      go (some c) = opened (can_listen [] c.listen) refl
        where
          debugging : Server
          debugging = record {
            servers = c.listen ∷ [];
            listening = c.listen ∷ [];
            serving = (debug_service, c.listen) ∷ [];
          }

          first : Bool → Started × Server
          first b = if b then (started, debugging) else (
            failed (cannot_listen debug_service),
            record new_server { servers = c.listen ∷ [] },
          )

          behind : Bool → Started × Server
          behind b = elim ((first b).0) [
            | started ↦ start_api can_listen cfg.api (first b).1
            | panicked ↦ (panicked, (first b).1)
            | failed e ↦ (failed e, (first b).1)
          ]

          opened : (b : Bool) → can_listen [] c.listen ≡ b → Result (some c) (behind b)
          opened true e =
              let (fine, ended) = start_api-Ended cfg.api debugging valid refl in
              (fine, inr ((e, tt), ended))
          opened false e = (refl, inl (e, refl, refl))
