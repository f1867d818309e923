-- ===== src/Session.antt =====
-- session_manager.rs (src/session_manager.rs): sessions, the memory store behind the `SessionStore`
-- trait, and the manager. A time is a count of seconds since a fixed start, as `Utc::now()` reads
-- it, and an argument `now` of each method that does; `ttl_seconds` is taken as not negative. A new
-- session's UUID is an argument. `serde_json::Value` is any type. A store's method holds the map's
-- lock for its whole body. The Redis and the file store are not modelled.
use miwidothttp.Prelude.{
  ℕ, ◌+◌, ◌-◌, ◌≡◌, Bool, true, false, not, Option, none, some, List, [], ◌∷◌, ◌++◌, String, length,
  retain, ltb, ◌=?◌, string_eq, if◌then◌else◌,
}
use miwidothttp.Prelude.Assoc.{lookup, insert, remove}
pub mod Memory
pub mod Manager
mod Tests

pub record Session (Value : Type 0) : Type 0 where
  pub id : String
  pub items : List (String × Value)
  pub created_at : ℕ
  pub updated_at : ℕ
  pub expires_at : ℕ

-- The memory store: the sessions by their ids.
abbrev pub MemorySessionStore : Type 0 → Type 0
MemorySessionStore Value = List (String × Session Value)

module _ {Value : Type 0} where
  -- `Session::new`.
  pub new_session : String → ℕ → ℕ → Session Value
  new_session uuid ttl_seconds now = record {
    id = uuid;
    items = [];
    created_at = now;
    updated_at = now;
    expires_at = now + ttl_seconds;
  }

  pub is_expired : ℕ → Session Value → Bool
  is_expired now s = ltb s.expires_at now

  pub set_item : String → Value → ℕ → Session Value → Session Value
  set_item key value now s = record s { items = insert key value s.items; updated_at = now }

  pub get_item : String → Session Value → Option Value
  get_item key s = lookup key s.items

  -- The new session and the value that stood there.
  pub remove_item : String → ℕ → Session Value → Session Value × Option Value
  remove_item key now s =
      (record s { items = remove key s.items; updated_at = now }, lookup key s.items)

  -- `MemorySessionStore`, method by method.
  pub store_get : ℕ → String → MemorySessionStore Value → Option (Session Value)
  unfolding is_expired
  store_get now session_id m = elim (lookup session_id m) [
    | none ↦ none
    | some s ↦ if is_expired now s then none else some s
  ]

  pub store_set : Session Value → MemorySessionStore Value → MemorySessionStore Value
  store_set s m = insert s.id s m

  pub store_delete : String → MemorySessionStore Value → MemorySessionStore Value
  store_delete session_id m = remove session_id m

  -- The store without its expired sessions, and how many there were.
  pub store_cleanup_expired : ℕ → MemorySessionStore Value → MemorySessionStore Value × ℕ
  unfolding is_expired
  store_cleanup_expired now m =
      let m' = retain (λ e. not (is_expired now (e.1))) m in (m', length m - length m')

pub record SessionConfig : Type 0 where
  pub ttl_seconds : ℕ
  pub cookie_name : String
  pub cookie_secure : Bool
  pub cookie_http_only : Bool
  pub cookie_same_site : String

-- The trait `SessionStore`, for a store whose state is `St`. `none` stands for `Err`.
pub record SessionStore (Value St : Type 0) : Type 0 where
  pub get : ℕ → String → St → Option (St × Option (Session Value))
  pub set : ℕ → Session Value → St → Option St
  pub delete : ℕ → String → St → Option St
  pub cleanup_expired : ℕ → St → Option (St × ℕ)

module _ {Value : Type 0} where
  abbrev pub memory_store : SessionStore Value (MemorySessionStore Value)
  memory_store = record {
    get = λ now id m. some (m, store_get now id m);
    set = λ now s m. some (store_set s m);
    delete = λ now id m. some (store_delete id m);
    cleanup_expired = λ now m. some (store_cleanup_expired now m);
  }

module _ {Value St : Type 0} (config : SessionConfig) (store : SessionStore Value St) where
  -- `SessionManager`, over any store.
  pub create_session : String → ℕ → St → Option (St × Session Value)
  unfolding new_session
  create_session uuid now st =
      let session = new_session uuid config.ttl_seconds now in
      elim (store.set now session st) [ none ↦ none | some st' ↦ some (st', session) ]

  pub get_session : ℕ → String → St → Option (St × Option (Session Value))
  get_session now session_id st = store.get now session_id st

  pub update_session : ℕ → Session Value → St → Option St
  update_session now session st = store.set now session st

  pub delete_session : ℕ → String → St → Option St
  delete_session now session_id st = store.delete now session_id st

  pub cleanup_expired : ℕ → St → Option (St × ℕ)
  cleanup_expired now st = store.cleanup_expired now st
