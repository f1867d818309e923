-- ===== src/Cache/Agreement.antt =====
-- cache.rs: what one layer gives, against a map of the values last written.
use miwidothttp.Prelude.{
  ℕ, ◌≡◌, ◌⊎◌, refl, Bool, true, false, Option, none, some, String, arith, Option-cases, Bool-cases,
  inl, inr, ◌=?◌, string_eq, if◌then◌else◌,
}
use miwidothttp.Cache.{Layer, IsLayer, Bytes, layer_value, change}

-- A map of keys with one key set.
abbrev pub put : String → Option Bytes → (String → Option Bytes) → String → Option Bytes
put key v f k = if key =? k then v else f k

-- A value is none, that of the map, or what Redis's crate reads of a missing key.
abbrev pub IsGiven : Option Bytes → (String → Option Bytes) → String → Option Bytes → Type 0
IsGiven nil_value f key value = (value ≡ none) ⊎ ((value ≡ f key) ⊎ (value ≡ nil_value))

-- A layer gives no value but that of a map, or the one for a missing key.
pub record Agrees (l : Layer) (nil_value : Option Bytes) (f : String → Option Bytes) (s : l.Store)
    : Type 0 where
  pub gives : (t : ℕ) (key : String) → IsGiven nil_value f key (l.read t key s)

-- The same of a layer that may not be there.
abbrev pub AgreesIf : (l : Layer) → Option Bytes → (String → Option Bytes) → Option l.Store → Type 0
AgreesIf l nil_value f none = Unit
AgreesIf l nil_value f (some s) = Agrees l nil_value f s

pub if-AgreesIf :
    (l : Layer) (nil_value : Option Bytes) (f : String → Option Bytes) (b : Bool)
    (x y : Option l.Store)
    → AgreesIf l nil_value f x
    → AgreesIf l nil_value f y
    → AgreesIf l nil_value f (if b then x else y)
if-AgreesIf l nil_value f true x y p q = p
if-AgreesIf l nil_value f false x y p q = q

module _ {l : Layer} (laws : IsLayer l) (nil_value : Option Bytes) where
  pub write-put :
      (f : String → Option Bytes) (t ttl : ℕ) (key : String) (v : Bytes) (s : l.Store)
      → Agrees l nil_value f s
      → Agrees l nil_value (put key (some v) f) (l.write t ttl key v s)
  write-put f t ttl key v s a = record {
    gives = λ t' k. elim (Bool-cases (key =? k)) [
      | inl same ↦ ground (arith, same, string_eq.test_iff key k, laws.read-write t t' ttl key v s)
      | inr other ↦ ground (
        arith,
        other,
        laws.read-write_other t t' ttl key k v s (ground (arith, other, string_eq.test_iff key k)),
        a.gives t' k,
      )
    ];
  }

  -- Writing a value that may be given changes nothing of what may be given.
  pub write-Agrees :
      (f : String → Option Bytes) (t ttl : ℕ) (key : String) (v : Bytes) (s : l.Store)
      → (f key ≡ some v) ⊎ (nil_value ≡ some v)
      → Agrees l nil_value f s
      → Agrees l nil_value f (l.write t ttl key v s)
  write-Agrees f t ttl key v s held a = record {
    gives = λ t' k.
        ground (arith, held, string_eq.test_iff key k, (write-put f t ttl key v s a).gives t' k);
  }

  pub delete_key-put :
      (f : String → Option Bytes) (key : String) (s : l.Store)
      → Agrees l nil_value f s
      → Agrees l nil_value (put key none f) (l.delete_key key s)
  delete_key-put f key s a = record {
    gives = λ t k. elim (Bool-cases (key =? k)) [
      | inl same ↦ ground (arith, same, string_eq.test_iff key k, laws.read-delete_key t key s)
      | inr other ↦ ground (
        arith,
        other,
        laws.read-delete_key_other t key k s (ground (arith, other, string_eq.test_iff key k)),
        a.gives t k,
      )
    ];
  }

  pub delete_all-Agrees :
      (f : String → Option Bytes) (s : l.Store) → Agrees l nil_value f (l.delete_all s)
  delete_all-Agrees f s = record { gives = λ t k. inl (laws.read-delete_all t k s) }

  pub layer_value-Agrees :
      (f : String → Option Bytes) (asked : Option Bytes) (now : ℕ) (key : String) (fails : Bool)
      (o : Option l.Store)
      → (asked ≡ none) ⊎ (asked ≡ nil_value)
      → AgreesIf l nil_value f o
      → IsGiven nil_value f key (layer_value l asked now key fails o)
  unfolding layer_value
  layer_value-Agrees f asked now key fails none q a = inl refl
  layer_value-Agrees f asked now key true (some s) q a = inl refl
  layer_value-Agrees f asked now key false (some s) q a =
      ground (arith, a.gives now key, Option-cases (l.read now key s), q)

  pub change-AgreesIf :
      (f g : String → Option Bytes) (step : l.Store → l.Store) (o : Option l.Store)
      → ((s : l.Store) → Agrees l nil_value f s → Agrees l nil_value g (step s))
      → AgreesIf l nil_value f o
      → AgreesIf l nil_value g (change step o)
  change-AgreesIf f g step none keeps a = tt
  change-AgreesIf f g step (some s) keeps a = keeps s a
