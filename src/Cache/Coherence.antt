-- ===== src/Cache/Coherence.antt =====
-- cache.rs: what a cache gives while its methods succeed.
use miwidothttp.Prelude.{
  ℕ, ◌≡◌, ◌⊎◌, refl, ◌&&◌, Option, none, some, is_some, String, arith, Option-cases, Bool-cases,
  inl, inr, string_eq,
}
use miwidothttp.Cache.{
  Layer, IsLayer, CacheManager, Faults, Bytes, done, layer_value, get, set, delete, clear, lower,
}
use miwidothttp.Cache.Agreement.{
  put, Agrees, AgreesIf, if-AgreesIf, write-put, write-Agrees, delete_key-put, delete_all-Agrees,
  IsGiven, layer_value-Agrees, change-AgreesIf,
}

-- No layer holds a value but that of the map, or the one read for a missing key.
pub record Coherent {memory redis disk : Layer} (nil_value : Option Bytes)
    (f : String → Option Bytes) (m : CacheManager memory redis disk) : Type 0 where
  pub in_memory : Agrees memory nil_value f m.memory_cache
  pub in_redis : AgreesIf redis nil_value f m.redis_conn
  pub on_disk : AgreesIf disk nil_value f m.disk_cache

module _ {memory redis disk : Layer} (memory_laws : IsLayer memory) (redis_laws : IsLayer redis)
    (disk_laws : IsLayer disk) (nil_value : Option Bytes) where
  get-Coherent :
      (f : String → Option Bytes) (now : ℕ) (key : String) (faults : Faults)
      (m : CacheManager memory redis disk)
      → Coherent nil_value f m
      → Coherent nil_value f (get nil_value now key faults m).0
        × IsGiven nil_value f key (get nil_value now key faults m).1
  unfolding get
  get-Coherent f now key faults m c = elim (Option-cases (memory.read now key m.memory_cache)) [
    | inr (value, found) ↦ rw (get, found) (c, ground (arith, c.in_memory.gives now key, found))
    | inl missing ↦
        elim (Option-cases (layer_value redis nil_value now key faults.redis m.redis_conn)) [
          | inr (value, found) ↦
              let held : (f key ≡ some value) ⊎ (nil_value ≡ some value) = ground (
                arith,
                found,
                layer_value-Agrees redis_laws nil_value f nil_value now key faults.redis
                    m.redis_conn (inr refl) c.in_redis,
              ) in
              rw (get, missing, found)
                (
                  record {
                    in_memory =
                        write-Agrees memory_laws nil_value f now m.ttl_seconds key value
                          m.memory_cache held c.in_memory;
                    in_redis = c.in_redis;
                    on_disk = c.on_disk;
                  },
                  ground (arith, held),
                )
          | inl absent ↦
              elim (Option-cases (layer_value disk none now key faults.disk m.disk_cache)) [
                | inl nowhere ↦ rw (get, missing, absent, nowhere) (c, inl refl)
                | inr (value, found) ↦
                    let held : (f key ≡ some value) ⊎ (nil_value ≡ some value) = ground (
                      arith,
                      found,
                      layer_value-Agrees disk_laws nil_value f none now key faults.disk m.disk_cache
                          (inl refl) c.on_disk,
                    ) in
                    rw (get, missing, absent, found)
                      (
                        record {
                          in_memory =
                              write-Agrees memory_laws nil_value f now m.ttl_seconds key value
                                m.memory_cache held c.in_memory;
                          in_redis =
                              if-AgreesIf redis nil_value f faults.redis_again m.redis_conn _
                                c.in_redis
                                (change-AgreesIf redis_laws nil_value f f _ m.redis_conn
                                  (λ s.
                                    write-Agrees redis_laws nil_value f now m.ttl_seconds key value
                                      s held)
                                  c.in_redis);
                          on_disk = c.on_disk;
                        },
                        ground (arith, held),
                      )
              ]
        ]
  ]

  lower-Coherent :
      (f g : String → Option Bytes) (on_redis : redis.Store → redis.Store)
      (on_disk : disk.Store → disk.Store) (faults : Faults) (m : CacheManager memory redis disk)
      → ((s : redis.Store) → Agrees redis nil_value f s → Agrees redis nil_value g (on_redis s))
      → ((s : disk.Store) → Agrees disk nil_value f s → Agrees disk nil_value g (on_disk s))
      → Agrees memory nil_value g m.memory_cache
      → AgreesIf redis nil_value f m.redis_conn
      → AgreesIf disk nil_value f m.disk_cache
      → (lower on_redis on_disk faults m).1 ≡ done
      → Coherent nil_value g (lower on_redis on_disk faults m).0
  unfolding lower
  lower-Coherent f g on_redis on_disk faults m keeps_redis keeps_disk a b c succeeds =
      elim (Bool-cases (faults.redis && is_some m.redis_conn)) [
        | inl bad ↦ absurd (ground (arith, bad, succeeds))
        | inr fine ↦ elim (Bool-cases (faults.disk && is_some m.disk_cache)) [
          | inl bad ↦ absurd (ground (arith, fine, bad, succeeds))
          | inr also ↦
              rw (lower, fine, also)
                record {
                  in_memory = a;
                  in_redis =
                      change-AgreesIf redis_laws nil_value f g on_redis m.redis_conn keeps_redis b;
                  on_disk =
                      change-AgreesIf disk_laws nil_value f g on_disk m.disk_cache keeps_disk c;
                }
        ]
      ]

  -- A history of a cache with the map of the values last written: its reads may fail anywhere, and
  -- its writes, deletions and clearings succeed.
  pub data History (f : String → Option Bytes) (m : CacheManager memory redis disk)
      : (String → Option Bytes) → CacheManager memory redis disk → Type 0 where
    begins : History f m f m
    gets :
        {g : String → Option Bytes} {n : CacheManager memory redis disk}
        → History f m g n
        → (now : ℕ) (key : String) (faults : Faults)
        → History f m g (get nil_value now key faults n).0
    sets :
        {g : String → Option Bytes} {n : CacheManager memory redis disk}
        → History f m g n
        → (now : ℕ) (key : String) (v : Bytes) (faults : Faults) → (set now key v faults n).1 ≡ done
        → History f m (put key (some v) g) (set now key v faults n).0
    deletes :
        {g : String → Option Bytes} {n : CacheManager memory redis disk}
        → History f m g n
        → (key : String) (faults : Faults) → (delete key faults n).1 ≡ done
        → History f m (put key none g) (delete key faults n).0
    clears :
        {g : String → Option Bytes} {n : CacheManager memory redis disk}
        → History f m g n
        → (faults : Faults) → (clear faults n).1 ≡ done
        → History f m (λ key. none) (clear faults n).0

  History-Coherent :
      {f : String → Option Bytes} {m : CacheManager memory redis disk} {g : String → Option Bytes}
      {n : CacheManager memory redis disk}
      → History f m g n
      → Coherent nil_value f m
      → Coherent nil_value g n
  unfolding set delete clear
  History-Coherent begins c = c
  History-Coherent (gets {g} {n} h now key faults) c =
      (get-Coherent g now key faults n (History-Coherent h c)).0
  History-Coherent (sets {g} {n} h now key v faults succeeds) c =
      let d = History-Coherent h c in
      lower-Coherent g (put key (some v) g) _ _ faults _
        (λ s. write-put redis_laws nil_value g now n.ttl_seconds key v s)
        (λ s. write-put disk_laws nil_value g now n.ttl_seconds key v s)
        (write-put memory_laws nil_value g now n.ttl_seconds key v n.memory_cache d.in_memory)
        d.in_redis d.on_disk succeeds
  History-Coherent (deletes {g} {n} h key faults succeeds) c =
      let d = History-Coherent h c in
      lower-Coherent g (put key none g) _ _ faults _
        (λ s. delete_key-put redis_laws nil_value g key s)
        (λ s. delete_key-put disk_laws nil_value g key s)
        (delete_key-put memory_laws nil_value g key n.memory_cache d.in_memory) d.in_redis d.on_disk
        succeeds
  History-Coherent (clears {g} {n} h faults succeeds) c =
      let d = History-Coherent h c in
      lower-Coherent g (λ key. none) _ _ faults _
        (λ s a. delete_all-Agrees redis_laws nil_value (λ key. none) s)
        (λ s a. delete_all-Agrees disk_laws nil_value (λ key. none) s)
        (delete_all-Agrees memory_laws nil_value (λ key. none) n.memory_cache) d.in_redis d.on_disk
        succeeds

  -- Let the layers keep their laws, and at first hold no value but that of a map. Over any history
  -- whose writes, deletions and clearings succeed, with reads that may fail anywhere between, a read
  -- of a key finds nothing, the value last written under it, which a deletion or a clearing has not
  -- taken since, or what Redis's crate reads of a missing key: no layer gives an older one.
  pub get-last_written :
      {f g : String → Option Bytes} {m n : CacheManager memory redis disk}
      → Coherent nil_value f m
      → History f m g n
      → (now : ℕ) (key : String) (faults : Faults)
      → IsGiven nil_value g key (get nil_value now key faults n).1
  get-last_written {f} {g} {m} {n} c h now key faults =
      (get-Coherent g now key faults n (History-Coherent h c)).1
