-- ===== src/Replication/Tests.antt =====
-- cluster/replication.rs: a failover at concrete inputs.
use miwidothttp.Prelude.{◌≡◌, refl, some, [], ◌∷◌, string_eq}
use miwidothttp.Prelude.Assoc.{lookup, insert}
use miwidothttp.Replication.{ReplicationEntry, Entries, replicate_entry, get}

abbrev entry : ReplicationEntry
entry = record {
  key = "k";
  value = 1 ∷ 2 ∷ [];
  version = 1;
  timestamp = 5;
  replicas = "a" ∷ "b" ∷ [];
}

abbrev entries : Entries
entries = ("k", entry) ∷ []

made :
    (replicate_entry "k" (1 ∷ 2 ∷ []) ("a" ∷ "b" ∷ []) 5 [] ≡ entries)
    × (get "k" entries ≡ some (1 ∷ 2 ∷ []))
unfolding replicate_entry get lookup insert
made = (refl, refl)
