-- ===== src/Vhost/Priority.antt =====
-- vhost.rs: the priorities of the virtual hosts that answer for a name.
use miwidothttp.Prelude.{
  ◌≡◌, refl, ◌∙◌, subst, Bool, true, false, ◌⊎◌, inl, inr, none, some, List, [], ◌∷◌, String,
  AtMost, AtMost-refl, AtMost-trans, AtMost-below, ltb_ℤ, All, arith, Bool-cases, Option-cases,
}
use miwidothttp.Pattern.{RegexLibrary}
use miwidothttp.Vhost.{VirtualHost, VHostManager, place, sort_by_priority, new, get_vhost}
use miwidothttp.Vhost.Lookup.{
  first_where, last_where, names_exactly, has_wildcard_for, get_vhost-new, any,
  any-sort_by_priority,
}

-- A virtual host of a list.
abbrev pub In : VirtualHost → List VirtualHost → Type 0
In v [] = ⊥
In v (w ∷ ws) = (v ≡ w) ⊎ In v ws

-- Falling priorities.
abbrev Sorted : List VirtualHost → Type 0
Sorted [] = Unit
Sorted (v ∷ vs) = All (λ w. AtMost w.priority v.priority) vs × Sorted vs

All-place :
    (P : VirtualHost → Type 0) (v : VirtualHost) (ws : List VirtualHost)
    → P v
    → All P ws
    → All P (place v ws)
All-place P v [] p h = (p, h)
All-place P v (w ∷ ws) p h = elim (Bool-cases (ltb_ℤ v.priority w.priority)) [
  | inl lower ↦ rw lower (h.0, All-place P v ws p h.1)
  | inr upper ↦ rw upper (p, h)
]

All-below :
    (a b : VirtualHost) (ws : List VirtualHost)
    → AtMost a.priority b.priority
    → All (λ w. AtMost w.priority a.priority) ws
    → All (λ w. AtMost w.priority b.priority) ws
All-below a b [] h hs = tt
All-below a b (w ∷ ws) h hs =
    (AtMost-trans w.priority a.priority b.priority hs.0 h, All-below a b ws h hs.1)

place-Sorted : (v : VirtualHost) (ws : List VirtualHost) → Sorted ws → Sorted (place v ws)
place-Sorted v [] h = (tt, tt)
place-Sorted v (w ∷ ws) h = elim (Bool-cases (ltb_ℤ v.priority w.priority)) [
  | inl lower ↦ rw lower (
    All-place (λ u. AtMost u.priority w.priority) v ws (AtMost-below v.priority w.priority lower)
        h.0,
    place-Sorted v ws h.1,
  )
  | inr upper ↦ rw upper ((upper, All-below w v ws upper h.0), h)
]

sort_by_priority-Sorted : (vs : List VirtualHost) → Sorted (sort_by_priority vs)
sort_by_priority-Sorted [] = tt
sort_by_priority-Sorted (v ∷ vs) = place-Sorted v (sort_by_priority vs) (sort_by_priority-Sorted vs)

In-place_self : (v : VirtualHost) (ws : List VirtualHost) → In v (place v ws)
In-place_self v [] = inl refl
In-place_self v (w ∷ ws) = elim (Bool-cases (ltb_ℤ v.priority w.priority)) [
  | inl lower ↦ rw lower (inr (In-place_self v ws))
  | inr upper ↦ rw upper (inl refl)
]

In-place : (u v : VirtualHost) (ws : List VirtualHost) → In u ws → In u (place v ws)
In-place u v [] h = absurd h
In-place u v (w ∷ ws) h = elim (Bool-cases (ltb_ℤ v.priority w.priority)) [
  | inl lower ↦ rw lower (elim h [ inl here ↦ inl here | inr there ↦ inr (In-place u v ws there) ])
  | inr upper ↦ rw upper (inr h)
]

In-sort_by_priority :
    (v : VirtualHost) (vs : List VirtualHost) → In v vs → In v (sort_by_priority vs)
In-sort_by_priority v [] h = h
In-sort_by_priority v (w ∷ ws) h = elim h [
  | inl here ↦
      subst (λ u. In v (place u (sort_by_priority ws))) here (In-place_self v (sort_by_priority ws))
  | inr there ↦ In-place v w (sort_by_priority ws) (In-sort_by_priority v ws there)
]

last_where-AtMost :
    (p : VirtualHost → Bool) (v : VirtualHost) (ws : List VirtualHost) (w : VirtualHost)
    → All (λ u. AtMost u.priority v.priority) ws
    → last_where p ws ≡ some w
    → AtMost w.priority v.priority
last_where-AtMost p v [] w hs h = cc
last_where-AtMost p v (u ∷ us) w hs h = elim (Option-cases (last_where p us)) [
  | inl fails ↦ ground (arith, fails, hs.0)
  | inr (x, found) ↦ ground (arith, found, last_where-AtMost p v us x hs.1 found)
]

All-In :
    (v : VirtualHost) (ws : List VirtualHost) (w : VirtualHost)
    → All (λ u. AtMost u.priority v.priority) ws
    → In w ws
    → AtMost w.priority v.priority
All-In v [] w hs h = absurd h
All-In v (u ∷ us) w hs h = elim h [ inl here ↦ rw here hs.0 | inr there ↦ All-In v us w hs.1 there ]

last_where-lowest :
    (p : VirtualHost → Bool) (vs : List VirtualHost) (v : VirtualHost)
    → Sorted vs
    → In v vs
    → p v ≡ true
    → (w : VirtualHost) × (last_where p vs ≡ some w) × AtMost w.priority v.priority
last_where-lowest p [] v s h q = absurd h
last_where-lowest p (u ∷ us) v s h q = elim h [
  | inl here ↦ elim (Option-cases (last_where p us)) [
    | inl fails ↦ (v, ground (arith, fails), AtMost-refl v.priority)
    | inr (x, found) ↦ (x, ground (arith, found), rw here (last_where-AtMost p u us x s.0 found))
  ]
  | inr there ↦
      let (w, found, low) = last_where-lowest p us v s.1 there q in (w, ground (arith, found), low)
]

last_where-none :
    (p : VirtualHost → Bool) (vs : List VirtualHost) → any p vs ≡ false → last_where p vs ≡ none
last_where-none p [] h = refl
last_where-none p (u ∷ us) h = ground (arith, last_where-none p us)

first_where-highest :
    (p : VirtualHost → Bool) (vs : List VirtualHost) (v : VirtualHost)
    → Sorted vs
    → In v vs
    → p v ≡ true
    → (w : VirtualHost) × (first_where p vs ≡ some w) × AtMost v.priority w.priority
first_where-highest p [] v s h q = absurd h
first_where-highest p (u ∷ us) v s h q = elim (Bool-cases (p u)) [
  | inl holds ↦ (
    u,
    ground (arith, holds),
    elim h [ inl here ↦ rw here (AtMost-refl u.priority) | inr there ↦ All-In u us v s.0 there ],
  )
  | inr misses ↦ elim h [
    | inl here ↦ absurd (ground (arith, misses))
    | inr there ↦
        let (w, found, high) = first_where-highest p us v s.1 there q in
        (w, ground (arith, misses, found), high)
  ]
]

module _ {Regex : Type 0} (lib : RegexLibrary Regex) where
  -- Where `new` succeeds, the virtual host that is found for a host has a priority no higher than
  -- that of any virtual host that names the host exactly.
  pub exact_lowest :
      (vs : List VirtualHost) (m : VHostManager Regex) (host : String) (v : VirtualHost)
      → new lib vs ≡ some m
      → In v vs
      → names_exactly host v ≡ true
      → (w : VirtualHost) × (get_vhost lib m host ≡ some w) × AtMost w.priority v.priority
  exact_lowest vs m host v h there named =
      let (w, found, low) =
        last_where-lowest (names_exactly host) (sort_by_priority vs) v (sort_by_priority-Sorted vs)
          (In-sort_by_priority v vs there) named in
      (w, ground (arith, found, get_vhost-new lib vs m host h), low)

  -- Where `new` succeeds and no virtual host names the host exactly, the one that is found has a
  -- priority at least that of any with a wildcard that matches the host.
  pub wildcard_highest :
      (vs : List VirtualHost) (m : VHostManager Regex) (host : String) (v : VirtualHost)
      → new lib vs ≡ some m
      → any (names_exactly host) vs ≡ false
      → In v vs
      → has_wildcard_for lib host v ≡ true
      → (w : VirtualHost) × (get_vhost lib m host ≡ some w) × AtMost v.priority w.priority
  wildcard_highest vs m host v h free there matched =
      let (w, found, high) =
        first_where-highest (has_wildcard_for lib host) (sort_by_priority vs) v
          (sort_by_priority-Sorted vs) (In-sort_by_priority v vs there) matched in
      let nothing =
        last_where-none (names_exactly host) (sort_by_priority vs)
          (any-sort_by_priority (names_exactly host) vs ∙ free) in
      (w, ground (arith, found, nothing, get_vhost-new lib vs m host h), high)
