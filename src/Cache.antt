-- ===== src/Cache.antt =====
-- cache.rs (src/cache.rs): `CacheManager`, a cache in memory (moka) over one in Redis over one on
-- disk (cacache). A layer is a type of states with its operations; Layer gives the laws that each is
-- relied on for. Whether a call of Redis or of the disk fails is an argument of each method. In
-- memory and in Redis an entry may be gone at any time, by its age or for want of room, so that the
-- reading of a layer takes the time, and the writing of memory and of Redis the time to live.
use miwidothttp.Prelude.{
  ℕ, ◌≤◌, ◌≡◌, ◌⊎◌, Bool, true, false, not, ◌&&◌, Option, none, some, List, String, if◌then◌else◌,
  ◌≢◌, is_some,
}
pub mod Agreement
pub mod Coherence
pub mod Resurrection
mod Tests

abbrev pub Bytes : Type 0
Bytes = List ℕ

-- The operations of a layer.
pub record Layer : Type 1 where
  pub Store : Type 0
  pub read : (now : ℕ) (key : String) → Store → Option Bytes
  pub write : (now ttl : ℕ) (key : String) → Bytes → Store → Store
  pub delete_key : (key : String) → Store → Store
  pub delete_all : Store → Store
  pub entry_count : (now : ℕ) → Store → ℕ

-- What a layer is relied on for: it gives no value but the one last written, and none for a key that
-- was deleted.
pub record IsLayer (l : Layer) : Type 0 where
  pub read-write :
      (t t' ttl : ℕ) (key : String) (v : Bytes) (s : l.Store)
      → (l.read t' key (l.write t ttl key v s) ≡ none)
        ⊎ (l.read t' key (l.write t ttl key v s) ≡ some v)
  pub read-write_other :
      (t t' ttl : ℕ) (key other : String) (v : Bytes) (s : l.Store)
      → key ≢ other
      → (l.read t' other (l.write t ttl key v s) ≡ none)
        ⊎ (l.read t' other (l.write t ttl key v s) ≡ l.read t' other s)
  pub read-delete_key :
      (t : ℕ) (key : String) (s : l.Store) → l.read t key (l.delete_key key s) ≡ none
  pub read-delete_key_other :
      (t : ℕ) (key other : String) (s : l.Store)
      → key ≢ other
      → l.read t other (l.delete_key key s) ≡ l.read t other s
  pub read-delete_all : (t : ℕ) (key : String) (s : l.Store) → l.read t key (l.delete_all s) ≡ none

-- Which of the calls that a method makes fail: those of Redis, a later one of Redis, and the disk's.
pub record Faults : Type 0 where
  pub redis : Bool
  pub redis_again : Bool
  pub disk : Bool

pub data Outcome : Type 0 where
  done redis_error disk_error : Outcome

pub record CacheStats : Type 0 where
  pub memory_entries : ℕ
  pub redis_entries : ℕ
  pub disk_entries : ℕ

-- The configured layers, and the time to live of the configuration.
pub record CacheManager (memory redis disk : Layer) : Type 0 where
  pub memory_cache : memory.Store
  pub redis_conn : Option redis.Store
  pub disk_cache : Option disk.Store
  pub ttl_seconds : ℕ

-- A change of a layer that is there.
abbrev pub change : {S : Type 0} → (S → S) → Option S → Option S
change f none = none
change f (some s) = some (f s)

abbrev pub or_else {ℓ} : {A : Type ℓ} → Option A → Option A → Option A
or_else none other = other
or_else (some a) other = some a

-- What a lower layer gives: nothing where it is not there or the call fails, and for a key that it
-- does not hold what the layer's crate reads as its reply.
unfoldable pub layer_value :
    (l : Layer) (nil_value : Option Bytes) (now : ℕ) (key : String) (fails : Bool)
    → Option l.Store
    → Option Bytes
layer_value l nil_value now key fails none = none
layer_value l nil_value now key fails (some s) =
    if fails then none else or_else (l.read now key s) nil_value

module _ {memory redis disk : Layer} where
  unfoldable pub get :
      (nil_value : Option Bytes) (now : ℕ) (key : String)
      → Faults
      → CacheManager memory redis disk
      → CacheManager memory redis disk × Option Bytes
  get nil_value now key faults m = elim (memory.read now key m.memory_cache) [
    | some value ↦ (m, some value)
    | none ↦ elim (layer_value redis nil_value now key faults.redis m.redis_conn) [
      | some value ↦ (
        record m { memory_cache = memory.write now m.ttl_seconds key value m.memory_cache },
        some value,
      )
      | none ↦ elim (layer_value disk none now key faults.disk m.disk_cache) [
        | some value ↦ (
          record m {
            memory_cache = memory.write now m.ttl_seconds key value m.memory_cache;
            redis_conn =
                if faults.redis_again
                then m.redis_conn
                else change (redis.write now m.ttl_seconds key value) m.redis_conn;
          },
          some value,
        )
        | none ↦ (m, none)
      ]
    ]
  ]

  -- The calls of Redis and of the disk that end a method, with `?` after each.
  unfoldable pub lower :
      (redis.Store → redis.Store)
      → (disk.Store → disk.Store)
      → Faults
      → CacheManager memory redis disk
      → CacheManager memory redis disk × Outcome
  lower on_redis on_disk faults m =
      if faults.redis && is_some m.redis_conn
      then (m, redis_error)
      else (let changed = record m { redis_conn = change on_redis m.redis_conn } in
          if faults.disk && is_some m.disk_cache
          then (changed, disk_error)
          else (record changed { disk_cache = change on_disk m.disk_cache }, done))

  unfoldable pub set :
      (now : ℕ) (key : String)
      → Bytes
      → Faults
      → CacheManager memory redis disk
      → CacheManager memory redis disk × Outcome
  unfolding lower
  set now key value faults m =
      lower (redis.write now m.ttl_seconds key value) (disk.write now m.ttl_seconds key value)
        faults (record m { memory_cache = memory.write now m.ttl_seconds key value m.memory_cache })

  unfoldable pub delete :
      (key : String)
      → Faults
      → CacheManager memory redis disk
      → CacheManager memory redis disk × Outcome
  unfolding lower
  delete key faults m =
      lower (redis.delete_key key) (disk.delete_key key) faults
        (record m { memory_cache = memory.delete_key key m.memory_cache })

  unfoldable pub clear :
      Faults → CacheManager memory redis disk → CacheManager memory redis disk × Outcome
  unfolding lower
  clear faults m =
      lower redis.delete_all disk.delete_all faults
        (record m { memory_cache = memory.delete_all m.memory_cache })

  unfoldable pub stats : (now : ℕ) → Faults → CacheManager memory redis disk → CacheStats
  stats now faults m = record {
    memory_entries = memory.entry_count now m.memory_cache;
    redis_entries =
        if faults.redis
        then 0
        else elim m.redis_conn [ none ↦ 0 | some s ↦ redis.entry_count now s ];
    disk_entries =
        if faults.disk then 0 else elim m.disk_cache [ none ↦ 0 | some s ↦ disk.entry_count now s ];
  }
