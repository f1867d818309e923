-- ===== src/Cache/Resurrection.antt =====
-- cache.rs: a value that a failed deletion leaves, and a key that Redis does not hold.
use miwidothttp.Prelude.{ℕ, ◌≡◌, true, false, none, some, String, arith, Option-cases, inl, inr}
use miwidothttp.Cache.{
  Layer, IsLayer, CacheManager, Faults, Bytes, redis_error, layer_value, or_else, get, delete,
  lower,
}

module _ {memory redis disk : Layer} (memory_laws : IsLayer memory) where
  -- Where a deletion fails at Redis, it says so and the disk is not touched: a later read, while
  -- Redis does not answer and the disk does, finds what the disk held.
  pub delete-redis_error :
      (key : String) (faults : Faults) (m : CacheManager memory redis disk) (r : redis.Store)
      (d : disk.Store)
      → m.redis_conn ≡ some r
      → m.disk_cache ≡ some d
      → faults.redis ≡ true
      → ((delete key faults m).1 ≡ redis_error)
        × ((now : ℕ) (later : Faults)
            → later.redis ≡ true
            → later.disk ≡ false
            → (get none now key later (delete key faults m).0).1 ≡ disk.read now key d)
  unfolding delete lower get layer_value
  delete-redis_error key faults m r d connected kept fails = (
    ground (arith, connected, fails),
    λ now later out answers. ground (
      arith,
      connected,
      kept,
      fails,
      out,
      answers,
      memory_laws.read-delete_key now key m.memory_cache,
      Option-cases (disk.read now key d),
    ),
  )

module _ {memory redis disk : Layer} where
  -- Where the reply for a key that Redis does not hold is read as a value, and Redis answers, each
  -- read finds a value: that of memory, else that of Redis, else that one; the disk is never read.
  pub get-nil_value :
      (v : Bytes) (now : ℕ) (key : String) (faults : Faults) (m : CacheManager memory redis disk)
      (r : redis.Store)
      → m.redis_conn ≡ some r
      → faults.redis ≡ false
      → (get (some v) now key faults m).1
        ≡ or_else (memory.read now key m.memory_cache) (or_else (redis.read now key r) (some v))
  unfolding get layer_value
  get-nil_value v now key faults m r connected answers =
      elim (Option-cases (memory.read now key m.memory_cache)) [
        | inl missing ↦ elim (Option-cases (redis.read now key r)) [
          | inl nil ↦ ground (arith, missing, nil, connected, answers)
          | inr (w, held) ↦ ground (arith, missing, held, connected, answers)
        ]
        | inr (w, held) ↦ ground (arith, held)
      ]
