-- ===== src/Replication.antt =====
-- cluster/replication.rs (src/cluster/replication.rs): the table of replicated values. Values are
-- lists of bytes, and `SystemTime::now()` is an argument. Sending to the replicas is not
-- implemented in the source; `sync_data` reads and logs only.
use miwidothttp.Prelude.{
  ℕ, Bool, true, false, not, Option, none, some, List, [], ◌∷◌, String, string_eq, contains, retain,
  ◌=?◌, if◌then◌else◌,
}
use miwidothttp.Prelude.Assoc.{lookup, insert}
pub mod Failover
mod Tests

pub record ReplicationEntry : Type 0 where
  pub key : String
  pub value : List ℕ
  pub version : ℕ
  pub timestamp : ℕ
  pub replicas : List String

abbrev pub Entries : Type 0
Entries = List (String × ReplicationEntry)

pub replicate_entry : String → List ℕ → List String → ℕ → Entries → Entries
replicate_entry key value replicas now entries =
    insert key
      (record { key = key; value = value; version = 1; timestamp = now; replicas = replicas })
      entries

pub get : String → Entries → Option (List ℕ)
get key entries = elim (lookup key entries) [ none ↦ none | some e ↦ some e.value ]

-- One entry under `handle_failover`.
pub drop_replica : String → ReplicationEntry → ReplicationEntry
drop_replica failed_node e =
    if contains e.replicas failed_node
    then record e { replicas = retain (λ n. not (n =? failed_node)) e.replicas }
    else e

pub handle_failover : String → Entries → Entries
unfolding drop_replica
handle_failover failed_node [] = []
handle_failover failed_node ((key, e) ∷ entries) =
    (key, drop_replica failed_node e) ∷ handle_failover failed_node entries
