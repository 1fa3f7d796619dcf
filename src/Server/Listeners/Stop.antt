-- ===== src/Server/Listeners/Stop.antt =====
-- What the end of the servers returns.
use backupgate.Prelude.{
  ◌≡◌, refl, ap, ◌⊎◌, inl, inr, Option, none, some, List, [], ◌∷◌, ◌++◌, All, Bytes,
}
use backupgate.Server.Listeners.{Server, last_error, shutdown}

module _ {E : Type 0} (shutdown_server : Bytes → Option E) where
  last_error-cases :
      (last : Option E) (servers : List Bytes)
      → ((last_error shutdown_server last servers ≡ last)
          × All (λ srv. shutdown_server srv ≡ none) servers)
        ⊎ ((before : List Bytes) × (srv : Bytes) × (after : List Bytes) × (e : E) × (servers
              ≡ before ++ (srv ∷ after))
            × (shutdown_server srv ≡ some e)
            × All (λ other. shutdown_server other ≡ none) after
            × (last_error shutdown_server last servers ≡ some e))
  unfolding last_error
  last_error-cases last [] = inl (refl, tt)
  last_error-cases last (srv ∷ servers) =
      go (shutdown_server srv) refl (λ l. last_error-cases l servers)
    where
      Cases : Option E → List Bytes → Option E → Type 0
      Cases l all result =
          ((result ≡ l) × All (λ x. shutdown_server x ≡ none) all)
          ⊎ ((before : List Bytes) × (x : Bytes) × (after : List Bytes) × (e : E) × (all
                ≡ before ++ (x ∷ after))
              × (shutdown_server x ≡ some e)
              × All (λ other. shutdown_server other ≡ none) after
              × (result ≡ some e))

      go :
          (o : Option E)
          → shutdown_server srv ≡ o
          → ((l : Option E) → Cases l servers (last_error shutdown_server l servers))
          → Cases last (srv ∷ servers) (
              last_error shutdown_server
                (elim o as (λ _. Option E) [ none ↦ last | some e ↦ some e ])
                servers)
      go none k rec = elim (rec last) [
        | inl (same, all) ↦ inl (same, (k, all))
        | inr (before, x, after, e, split, error, rest, result) ↦
            inr (srv ∷ before, x, after, e, ap (λ l. srv ∷ l) split, error, rest, result)
      ]
      go (some e) k rec = elim (rec (some e)) [
        | inl (same, all) ↦ inr ([], srv, servers, e, refl, k, all, same)
        | inr (before, x, after, y, split, error, rest, result) ↦
            inr (srv ∷ before, x, after, y, ap (λ l. srv ∷ l) split, error, rest, result)
      ]

  -- `Shutdown` shuts every server down, whatever the others answer. It returns the error of the last
  -- one that could not be; if all could be, it returns how the wait for their goroutines ended.
  pub shutdown-last :
      (ended : Option E) (s : Server)
      → ((shutdown shutdown_server ended s ≡ ended)
          × All (λ srv. shutdown_server srv ≡ none) s.servers)
        ⊎ ((before : List Bytes) × (srv : Bytes) × (after : List Bytes) × (e : E) × (s.servers
              ≡ before ++ (srv ∷ after))
            × (shutdown_server srv ≡ some e)
            × All (λ other. shutdown_server other ≡ none) after
            × (shutdown shutdown_server ended s ≡ some e))
  unfolding shutdown
  shutdown-last ended s = elim (last_error-cases none s.servers) [
    | inl (same, all) ↦ inl (rw (same, shutdown) refl, all)
    | inr (before, x, after, e, split, error, rest, result) ↦
        inr (before, x, after, e, split, error, rest, rw (result, shutdown) refl)
  ]
