-- ===== src/Session/Manager.antt =====
-- session_manager.rs: the manager over any store that keeps the trait's contract.
use miwidothttp.Prelude.{
  ℕ, ◌+◌, ◌≤◌, ◌≡◌, refl, Option, none, some, String, ltb, ◌=?◌, string_eq, if◌then◌else◌, arith,
  Option-cases, inl, inr,
}
use miwidothttp.Prelude.Assoc.{=?-refl, lookup-insert}
use miwidothttp.Session.{
  Session, SessionConfig, SessionStore, memory_store, new_session, set_item, get_item,
  create_session, get_session, update_session,
}
use miwidothttp.Session.Memory.{shown, store_get-store_set}

-- What the manager relies on: a store shows at each time a session or none for each id. `get`
-- answers what it shows, and shows the same afterwards; `set` shows the session under its id until
-- it expires, and the rest as before.
pub record IsSessionStore {Value St : Type 0} (store : SessionStore Value St) : Type 1 where
  pub view : ℕ → String → St → Option (Session Value)
  pub get_view :
      (now : ℕ) (id : String) (st st' : St) (r : Option (Session Value))
      → store.get now id st ≡ some (st', r)
      → r ≡ view now id st
  pub get_keeps :
      (now : ℕ) (id : String) (st st' : St) (r : Option (Session Value)) (later : ℕ) (id' : String)
      → store.get now id st ≡ some (st', r)
      → now ≤ later
      → view later id' st' ≡ view later id' st
  pub set_view :
      (now : ℕ) (s : Session Value) (st st' : St) (later : ℕ) (id : String)
      → store.set now s st ≡ some st'
      → view later id st' ≡ (
          if s.id =? id
          then (if ltb s.expires_at later then none else some s)
          else view later id st)

-- The memory store keeps the contract.
pub memory-IsSessionStore : {Value : Type 0} → IsSessionStore (memory_store {Value = Value})
memory-IsSessionStore = record {
  view = λ now id m. shown now m id;
  get_view = λ now id m m' r h. ground arith;
  get_keeps = λ now id m m' r later id' h le. ground arith;
  set_view = λ now s m m' later id h. ground (arith, store_get-store_set s m later id);
}

set_item_lem :
    {Value : Type 0} (key : String) (value : Value) (now : ℕ) (s : Session Value)
    → ((set_item key value now s).id ≡ s.id)
      × ((set_item key value now s).expires_at ≡ s.expires_at)
      × (get_item key (set_item key value now s) ≡ some value)
unfolding set_item get_item
set_item_lem key value now s = (refl, refl, rw (lookup-insert key key value s.items, =?-refl key))

new_session_lem :
    (Value : Type 0) (uuid : String) (ttl now : ℕ)
    → ((new_session {Value = Value} uuid ttl now).id ≡ uuid)
      × ((new_session {Value = Value} uuid ttl now).expires_at ≡ now + ttl)
unfolding new_session
new_session_lem Value uuid ttl now = (refl, refl)

module _ {Value St : Type 0} (config : SessionConfig) (store : SessionStore Value St)
    (law : IsSessionStore store) where
  create_view :
      (uuid : String) (now : ℕ) (st st' : St) (s : Session Value) (later : ℕ)
      → create_session config store uuid now st ≡ some (st', s)
      → (s ≡ new_session uuid config.ttl_seconds now)
        × (law.view later uuid st'
            ≡ (if ltb (now + config.ttl_seconds) later then none else some s))
  unfolding create_session
  create_view uuid now st st' s later h =
      let session : Session Value = new_session uuid config.ttl_seconds now in
      elim (Option-cases (store.set now session st)) [
        | inl failed ↦ absurd (ground arith)
        | inr (st'', done) ↦
            ground (arith, law.set_view now session st st'' later uuid done, =?-refl uuid)
      ]

  -- A session that was created is found under its UUID for `ttl_seconds` seconds, the last of them
  -- included, and not afterwards.
  pub get-create :
      (uuid : String) (now : ℕ) (st st' st'' : St) (s : Session Value) (later : ℕ)
      (r : Option (Session Value))
      → create_session config store uuid now st ≡ some (st', s)
      → get_session config store later uuid st' ≡ some (st'', r)
      → r ≡ (if ltb (now + config.ttl_seconds) later then none else some s)
  unfolding get_session
  get-create uuid now st st' st'' s later r h h' =
      ground (arith, create_view uuid now st st' s later h, law.get_view later uuid st' st'' r h')

  -- Setting an item and storing the session again does not lengthen its life: it is found, with the
  -- item, until `ttl_seconds` after it was created.
  pub get-update_item :
      (uuid : String) (key : String) (value : Value) (now now' later : ℕ) (st st' st'' st''' : St)
      (s : Session Value) (r : Option (Session Value))
      → create_session config store uuid now st ≡ some (st', s)
      → update_session config store now' (set_item key value now' s) st' ≡ some st''
      → get_session config store later uuid st'' ≡ some (st''', r)
      → r ≡ (
          if ltb (now + config.ttl_seconds) later then none else some (set_item key value now' s))
        × (get_item key (set_item key value now' s) ≡ some value)
  unfolding get_session update_session
  get-update_item uuid key value now now' later st st' st'' st''' s r h h' h'' = ground (
    arith,
    create_view uuid now st st' s later h,
    set_item_lem key value now' s,
    new_session_lem Value uuid config.ttl_seconds now,
    law.set_view now' (set_item key value now' s) st' st'' later uuid h',
    law.get_view later uuid st'' st''' r h'',
    =?-refl uuid,
  )
