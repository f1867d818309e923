-- ===== src/Session/Tests.antt =====
-- session_manager.rs: sessions at concrete inputs.
use miwidothttp.Prelude.{
  ℕ, ◌+◌, ◌≡◌, refl, true, false, none, some, [], ◌∷◌, String, length, string_eq, All, arith,
}
use miwidothttp.Prelude.Assoc.{lookup, KeysDiffer}
use miwidothttp.Session.{
  Session, SessionConfig, MemorySessionStore, is_expired, store_get, store_cleanup_expired,
}
use miwidothttp.Session.Memory.{shown, store_cleanup_invisible}

abbrev config : SessionConfig
config = record {
  ttl_seconds = 60;
  cookie_name = "session_id";
  cookie_secure = false;
  cookie_http_only = true;
  cookie_same_site = "lax";
}

abbrev session : String → ℕ → Session ℕ
session id expires_at = record {
  id = id;
  items = [];
  created_at = 0;
  updated_at = 0;
  expires_at = expires_at;
}

abbrev two_sessions : MemorySessionStore ℕ
two_sessions = ("a", session "a" 50) ∷ ("b", session "b" 90) ∷ []

-- At 51 the first is gone, for a client and in the store.
expires :
    (store_get 50 "a" two_sessions ≡ some (session "a" 50))
    × (store_get 51 "a" two_sessions ≡ none)
    × (store_cleanup_expired 51 two_sessions ≡ (("b", session "b" 90) ∷ [], 1))
unfolding store_get store_cleanup_expired lookup
expires = (refl, refl, refl)

store_cleanup_invisible_example :
    let (m', removed) = store_cleanup_expired 51 two_sessions in
    (shown 70 m' "b" ≡ shown 70 two_sessions "b")
    × All (λ e. is_expired 51 (e.1) ≡ false) m'
    × (length m' + removed ≡ 2)
    × KeysDiffer m'
unfolding lookup
store_cleanup_invisible_example =
    store_cleanup_invisible two_sessions 51 70 "b" (refl, (refl, tt)) (omega arith)
