-- ===== src/Cache/Tests.antt =====
-- cache.rs: the theorems' witnesses, with association lists as layers.
use miwidothttp.Prelude.{
  refl, true, false, Option, none, some, List, [], ◌∷◌, String, string_eq, arith, inl,
}
use miwidothttp.Prelude.Assoc.{lookup, insert, remove, lookup-insert, lookup-remove}
use miwidothttp.Cache.{Layer, IsLayer, CacheManager, Faults, Bytes, get, set, lower}
use miwidothttp.Cache.Agreement.{IsGiven, put}
use miwidothttp.Cache.Coherence.{Coherent, begins, sets, get-last_written}

-- A layer in which nothing ages.
abbrev plain : Layer
plain = record {
  Store = List (String × Bytes);
  read = λ t key s. lookup key s;
  write = λ t ttl key v s. insert key v s;
  delete_key = λ key s. remove key s;
  delete_all = λ s. [];
  entry_count = λ t s. 0;
}

plain-IsLayer : IsLayer plain
unfolding lookup
plain-IsLayer = record {
  read-write =
      λ t t' ttl key v s. ground (arith, lookup-insert key key v s, string_eq.test_iff key key);
  read-write_other = λ t t' ttl key other v s h.
      ground (arith, h, lookup-insert key other v s, string_eq.test_iff key other);
  read-delete_key = λ t key s. ground (arith, lookup-remove key key s, string_eq.test_iff key key);
  read-delete_key_other =
      λ t key other s h. ground (arith, h, lookup-remove key other s, string_eq.test_iff key other);
  read-delete_all = λ t key s. refl;
}

abbrev no_faults : Faults
no_faults = record { redis = false; redis_again = false; disk = false }

abbrev redis_down : Faults
redis_down = record { redis = true; redis_again = true; disk = false }

abbrev held : List (String × Bytes)
held = ("k", 1 ∷ []) ∷ []

abbrev full : CacheManager plain plain plain
full = record {
  memory_cache = held;
  redis_conn = some held;
  disk_cache = some held;
  ttl_seconds = 60;
}

abbrev empty : CacheManager plain plain plain
empty = record { memory_cache = []; redis_conn = some []; disk_cache = none; ttl_seconds = 60 }

abbrev nothing : String → Option Bytes
nothing key = none

empty-Coherent : Coherent (some []) nothing empty
unfolding lookup
empty-Coherent = record {
  in_memory = record { gives = λ t key. inl refl };
  in_redis = record { gives = λ t key. inl refl };
  on_disk = tt;
}

get-last_written_example :
    IsGiven
      (some [])
      (put "k" (some (7 ∷ [])) nothing)
      "k"
      (get (some []) 9 "k" redis_down (set 5 "k" (7 ∷ []) no_faults empty).0).1
unfolding set lower
get-last_written_example =
    get-last_written plain-IsLayer plain-IsLayer plain-IsLayer (some []) empty-Coherent
      (sets begins 5 "k" (7 ∷ []) no_faults refl) 9 "k" redis_down
