-- ===== src/Session/Memory.antt =====
-- session_manager.rs: the memory store as a client sees it.
use miwidothttp.Prelude.{
  ℕ, ◌+◌, ◌≤◌, ◌≡◌, false, not, Option, none, some, [], ◌∷◌, String, length, length-retain-le,
  retain, ltb, ◌=?◌, string_eq, if◌then◌else◌, arith, All,
}
use miwidothttp.Prelude.Assoc.{
  lookup-insert, lookup-remove, KeysDiffer, lookup-retain, retain-KeysDiffer, insert-KeysDiffer,
  remove-KeysDiffer,
}
use miwidothttp.Session.{
  Session, MemorySessionStore, is_expired, store_get, store_set, store_delete,
  store_cleanup_expired,
}

module _ {Value : Type 0} where
  -- What a client can see of the store at time `now`: a session for each id, or none.
  abbrev pub shown : ℕ → MemorySessionStore Value → String → Option (Session Value)
  shown now m id = store_get now id m

  -- After `set` the id of the session shows it unless it has expired, and every other id shows what
  -- it did.
  pub store_get-store_set :
      (s : Session Value) (m : MemorySessionStore Value) (now : ℕ) (id : String)
      → shown now (store_set s m) id
        ≡ (if s.id =? id then (if ltb s.expires_at now then none else some s) else shown now m id)
  unfolding store_get store_set
  store_get-store_set s m now id = ground (arith, lookup-insert s.id id s m)

  pub store_get-store_delete :
      (m : MemorySessionStore Value) (now : ℕ) (id id' : String)
      → shown now (store_delete id m) id' ≡ (if id =? id' then none else shown now m id')
  unfolding store_get store_delete
  store_get-store_delete m now id id' = ground (arith, lookup-remove id id' m)

  -- A cleanup is not seen by any client, then or later, while no id stands in the store twice; it
  -- leaves no expired session and counts those that it drops.
  pub store_cleanup_invisible :
      (m : MemorySessionStore Value) (now later : ℕ) (id : String)
      → KeysDiffer m
      → now ≤ later
      → let (m', removed) = store_cleanup_expired now m in
        (shown later m' id ≡ shown later m id)
        × All (λ e. is_expired now (e.1) ≡ false) m'
        × (length m' + removed ≡ length m)
        × KeysDiffer m'
  unfolding store_cleanup_expired
  store_cleanup_invisible m now later id h le = (
    seen,
    live m,
    omega (arith, length-retain-le (λ (e : String × Session Value). not (is_expired now (e.1))) m),
    retain-KeysDiffer (λ e. not (is_expired now (e.1))) m h,
  )
    where
      seen : shown later (retain (λ e. not (is_expired now (e.1))) m) id ≡ shown later m id
      seen =
          unfold store_get in
          ground (
            arith,
            lookup-retain (λ (e : String × Session Value). not (is_expired now (e.1))) id m h,
          )

      live :
          (m : MemorySessionStore Value)
          → All (λ e. is_expired now (e.1) ≡ false) (retain (λ e. not (is_expired now (e.1))) m)
      live [] = tt
      live ((id, s) ∷ m) = ground (arith, live m)

  -- What the other methods leave of that condition.
  pub store_KeysDiffer :
      (s : Session Value) (id : String) (m : MemorySessionStore Value)
      → KeysDiffer m
      → KeysDiffer (store_set s m) × KeysDiffer (store_delete id m)
  unfolding store_set store_delete
  store_KeysDiffer s id m h = (insert-KeysDiffer s.id s m h, remove-KeysDiffer id m h)
