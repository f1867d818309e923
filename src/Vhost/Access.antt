-- ===== src/Vhost/Access.antt =====
-- vhost.rs: which addresses `check_access` lets through.
use miwidothttp.Prelude.{
  ◌≡◌, refl, sym, subst, ◌↔◌, Bool, true, false, if◌then◌else◌, ◌⊎◌, inl, inr, Option, none, some,
  List, [], ◌∷◌, String, arith, Option-cases,
}
use miwidothttp.Pattern.{RegexLibrary}
use miwidothttp.Vhost.{
  VirtualHost, AccessControl, VHostManager, get_vhost, matches_ip_pattern, matches_any,
  check_access, denied_by, allowed_by,
}

module _ {Regex : Type 0} (lib : RegexLibrary Regex) where
  -- Some pattern of a list matches the address, and none does.
  abbrev pub SomeMatches : String → List String → Type 0
  SomeMatches ip [] = ⊥
  SomeMatches ip (p ∷ ps) = (matches_ip_pattern lib ip p ≡ true) ⊎ SomeMatches ip ps

  abbrev pub NoneMatches : String → List String → Type 0
  NoneMatches ip [] = Unit
  NoneMatches ip (p ∷ ps) = (matches_ip_pattern lib ip p ≡ false) × NoneMatches ip ps

  matches_any-true :
      (ip : String) (ps : List String) → (matches_any lib ip ps ≡ true) ↔ SomeMatches ip ps
  unfolding matches_any
  matches_any-true ip [] = ground arith
  matches_any-true ip (p ∷ ps) = ground (arith, matches_any-true ip ps)

  matches_any-false :
      (ip : String) (ps : List String) → (matches_any lib ip ps ≡ false) ↔ NoneMatches ip ps
  unfolding matches_any
  matches_any-false ip [] = ground arith
  matches_any-false ip (p ∷ ps) = ground (arith, matches_any-false ip ps)

  abbrev pub NotDenied : String → Option (List String) → Type 0
  NotDenied ip none = Unit
  NotDenied ip (some ps) = NoneMatches ip ps

  abbrev pub Allowed : String → Option (List String) → Type 0
  Allowed ip none = Unit
  Allowed ip (some ps) = SomeMatches ip ps

  -- What an access control asks for.
  abbrev pub Passes : String → Option AccessControl → Type 0
  Passes ip none = Unit
  Passes ip (some a) = NotDenied ip a.deny × Allowed ip a.allow

  access_lem :
      (ip : String) (a : AccessControl)
      → ((if denied_by lib ip a.deny then false else allowed_by lib ip a.allow) ≡ true)
        ↔ Passes ip (some a)
  access_lem ip a = elim (Option-cases a.deny) [
    | inl free ↦ elim (Option-cases a.allow) [
      | inl everyone ↦ rw (free, everyone) (ground arith)
      | inr (ps, given) ↦ rw (free, given) (ground (arith, matches_any-true ip ps))
    ]
    | inr (qs, taken) ↦ elim (Option-cases a.allow) [
      | inl everyone ↦ rw (taken, everyone) (ground (arith, matches_any-false ip qs))
      | inr (ps, given) ↦
          rw (taken, given) (ground (arith, matches_any-true ip ps, matches_any-false ip qs))
    ]
  ]

  -- The decision of `check_access` for the virtual host that was found.
  abbrev decision : String → Option VirtualHost → Bool
  decision ip none = false
  decision ip (some v) = elim v.access_control [
    | none ↦ true
    | some a ↦ if denied_by lib ip a.deny then false else allowed_by lib ip a.allow
  ]

  decision-some :
      (ip : String) (v : VirtualHost) → (decision ip (some v) ≡ true) ↔ Passes ip v.access_control
  decision-some ip v = elim (Option-cases v.access_control) [
    | inl free ↦ rw free (ground arith)
    | inr (a, given) ↦ rw given (access_lem ip a)
  ]

  decision_iff :
      (ip : String) (o : Option VirtualHost)
      → (decision ip o ≡ true) ↔ ((v : VirtualHost) × (o ≡ some v) × Passes ip v.access_control)
  decision_iff ip none = (λ h. absurd (ground arith), λ (v, h, p). absurd (ground arith))
  decision_iff ip (some v) = (
    λ h. (v, refl, (decision-some ip v).0 h),
    λ (w, e, p). subst (λ o. decision ip o ≡ true) (sym e) ((decision-some ip w).1 p),
  )

  -- An address may reach a host exactly if the host has a virtual host that sets no access control,
  -- or of which no deny pattern matches the address and, if it has an allow list, even an empty
  -- one, one of its patterns does.
  pub check_access_iff :
      (m : VHostManager Regex) (host ip : String)
      → (check_access lib m host ip ≡ true)
        ↔ ((v : VirtualHost) × (get_vhost lib m host ≡ some v) × Passes ip v.access_control)
  unfolding check_access
  check_access_iff m host ip = decision_iff ip (get_vhost lib m host)
