-- ===== src/Replication/Failover.antt =====
-- cluster/replication.rs: what a failover does to the replicas of an entry.
use miwidothttp.Prelude.{
  ◌<◌, ◌≡◌, refl, ◌⊎◌, false, none, some, [], ◌∷◌, String, string_eq, contains, length,
  length-retain-lt, contains-retain_other, ◌=?◌, if◌then◌else◌, arith, Bool-cases, inl, inr,
}
use text.Mathlib.TextEquality.{eq_iff}
use miwidothttp.Prelude.Assoc.{lookup}
use miwidothttp.Replication.{ReplicationEntry, Entries, drop_replica, handle_failover}

lookup-handle_failover :
    (n key : String) (entries : Entries)
    → lookup key (handle_failover n entries)
      ≡ elim (lookup key entries) [ none ↦ none | some e ↦ some (drop_replica n e) ]
unfolding lookup handle_failover
lookup-handle_failover n key [] = refl
lookup-handle_failover n key ((k, e) ∷ entries) =
    ground (arith, lookup-handle_failover n key entries)

drop_replica_lem :
    (n m : String) (e : ReplicationEntry)
    → (contains (drop_replica n e).replicas m ≡ (if n =? m then false else contains e.replicas m))
      × ((drop_replica n e).value ≡ e.value)
      × ((drop_replica n e).version ≡ e.version)
      × (((contains e.replicas n ≡ false) × (drop_replica n e ≡ e))
          ⊎ (length (drop_replica n e).replicas < length e.replicas))
unfolding drop_replica
drop_replica_lem n m e = elim (Bool-cases (contains e.replicas n)) [
  | inl held ↦
      ground (arith, contains-retain_other n m e.replicas, length-retain-lt n e.replicas held)
  | inr free ↦ ground (arith, eq_iff n m)
]

-- After a failover an entry that was there is there, with the same value and version; its replicas
-- are the old ones but the failed node. No node takes that one's place: where the failed node held
-- a replica, the entry has fewer than before.
pub failover_loses_replica :
    (n m key : String) (entries : Entries) (e : ReplicationEntry)
    → lookup key entries ≡ some e
    → (e' : ReplicationEntry) × (lookup key (handle_failover n entries) ≡ some e')
      × (contains e'.replicas m ≡ (if n =? m then false else contains e.replicas m))
      × (e'.value ≡ e.value)
      × (e'.version ≡ e.version)
      × (((contains e.replicas n ≡ false) × (e' ≡ e)) ⊎ (length e'.replicas < length e.replicas))
failover_loses_replica n m key entries e h =
    let (a, b, c, d) = drop_replica_lem n m e in
    (drop_replica n e, rw (lookup-handle_failover n key entries, h), a, b, c, d)
