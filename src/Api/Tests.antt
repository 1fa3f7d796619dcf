-- ===== src/Api/Tests.antt =====
-- Runs of the choice of an authentication chain.
use backupgate.Prelude.{ℕ, ◌≡◌, inl, inr, true, none, List, [], ◌∷◌, Bytes, bytes}
use backupgate.Prelude.Int.{pos}
use backupgate.Sort.{Member, insertion_sort}
use backupgate.Config.Types.{fully_complete, KeyConfig}
use backupgate.Config.Keys.{find_key, names, resolve_key_config}
use backupgate.Config.Keys.Choice.{Chosen, Serves}
use backupgate.Api.Keys.{auth_chain}
use backupgate.Api.Keys.Agree.{auth_chain-agrees}

abbrev counted : KeyConfig
counted = record {
  buffer_mode = fully_complete;
  verification = true;
  detach_backup_from_request = none;
  rotation = record { max_count = pos 3; max_age = [] };
  auth = [];
}

-- The chains, by a number each.
abbrev two_chains : List (Bytes × ℕ)
two_chains = (bytes "default", 1) ∷ (bytes "db", 2) ∷ []

abbrev two_keys : List (Bytes × KeyConfig)
two_keys = (bytes "db", counted) ∷ (bytes "default", counted) ∷ []

no_empty_chain : ¬ Member [] (names two_chains)
no_empty_chain (inl e) = cc
no_empty_chain (inr (inl e)) = cc
no_empty_chain (inr (inr none_left)) = elim none_left [ ]

no_empty_key : ¬ Member [] (names two_keys)
no_empty_key (inl e) = cc
no_empty_key (inr (inl e)) = cc
no_empty_key (inr (inr none_left)) = elim none_left [ ]

to_chains : (x : Bytes) → Member x (names two_keys) → Member x (names two_chains)
to_chains x (inl e) = inr (inl e)
to_chains x (inr (inl e)) = inl e
to_chains x (inr (inr none_left)) = elim none_left [ ]

to_keys : (x : Bytes) → Member x (names two_chains) → Member x (names two_keys)
to_keys x (inl e) = inr (inl e)
to_keys x (inr (inl e)) = inl e
to_keys x (inr (inr none_left)) = elim none_left [ ]

auth_chain-agrees_example :
    (n : Bytes) × Chosen (names two_keys) (bytes "db/x") n
    × (resolve_key_config (insertion_sort Bytes) two_keys (bytes "db/x") ≡ find_key n two_keys)
    × (auth_chain two_chains (bytes "db/x") ≡ find_key n two_chains)
auth_chain-agrees_example =
    auth_chain-agrees (insertion_sort Bytes) two_keys two_chains (bytes "db/x") to_chains to_keys
      no_empty_key

abbrev empty_chain : List (Bytes × ℕ)
empty_chain = ([], 1) ∷ (bytes "default", 2) ∷ []

abbrev empty_key : List (Bytes × KeyConfig)
empty_key = ([], counted) ∷ (bytes "default", counted) ∷ []

not_configured : ¬ Member (bytes "/x") (names empty_key)
not_configured (inl e) = cc
not_configured (inr (inl e)) = cc
not_configured (inr (inr none_left)) = elim none_left [ ]

only_empty : (m : Bytes) → Member m (names empty_key) → Serves (bytes "/x") m → m ≡ []
only_empty m (inl e) s = e
only_empty m (inr (inl e)) s = elim (s.0 e) [ ]
only_empty m (inr (inr none_left)) s = elim none_left [ ]
