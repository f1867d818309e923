-- ===== src/Vhost/Lookup.antt =====
-- vhost.rs: which virtual host answers for a name, after `VHostManager::new`.
use miwidothttp.Prelude.{
  ◌≡◌, refl, ◌∙◌, ap, Bool, false, not, is_some, ◌&&◌, ◌||◌, Option, none, some, List, [], ◌∷◌,
  ◌++◌, String, ◌=?◌, string_eq, is_none, if◌then◌else◌, arith, Option-cases, inl, inr,
}
use miwidothttp.Prelude.Assoc.{lookup, lookup-insert}
use miwidothttp.Pattern.{RegexLibrary}
use miwidothttp.Vhost.{
  VirtualHost, VHostManager, place, sort_by_priority, is_default, is_wildcard, is_exact,
  domain_to_regex, add_domain, add_domains, add_vhost, add_all, new, first_match, get_vhost,
}

abbrev pub or_else : {A : Type 0} → Option A → Option A → Option A
or_else none b = b
or_else (some a) b = some a

abbrev pub any : {A : Type 0} → (A → Bool) → List A → Bool
any p [] = false
any p (x ∷ xs) = p x || any p xs

abbrev pub first_where : {A : Type 0} → (A → Bool) → List A → Option A
first_where p [] = none
first_where p (x ∷ xs) = if p x then some x else first_where p xs

abbrev pub last_where : {A : Type 0} → (A → Bool) → List A → Option A
last_where p [] = none
last_where p (x ∷ xs) = or_else (last_where p xs) (if p x then some x else none)

-- The virtual host has the host's own name among its domains.
abbrev pub is_name_of : String → String → Bool
is_name_of host d = is_exact d && d =? host

abbrev pub names_exactly : String → VirtualHost → Bool
names_exactly host v = any (is_name_of host) v.domains

abbrev pub is_default_vhost : VirtualHost → Bool
is_default_vhost v = any is_default v.domains

module _ {Regex : Type 0} (lib : RegexLibrary Regex) where
  -- A domain is a wildcard of which the expression matches the host.
  abbrev pub wildcard_matches : String → String → Bool
  wildcard_matches host d =
      is_wildcard d && elim (domain_to_regex lib d) [ none ↦ false | some r ↦ lib.is_match r host ]

  abbrev pub has_wildcard_for : String → VirtualHost → Bool
  has_wildcard_for host v = any (wildcard_matches host) v.domains

  first_match-append :
      (host : String) (ps : List (Regex × VirtualHost)) (r : Regex) (v : VirtualHost)
      → first_match lib host (ps ++ (r, v) ∷ [])
        ≡ or_else (first_match lib host ps) (if lib.is_match r host then some v else none)
  first_match-append host [] r v = refl
  first_match-append host ((q, w) ∷ ps) r v = ground (arith, first_match-append host ps r v)

  -- What one manager shows of a host, after `vs` have been added to another.
  abbrev Added :
      (p q d : Option VirtualHost) → String → VHostManager Regex → VHostManager Regex → Type 0
  Added p q d host m m' =
      (lookup host m'.domain_map ≡ or_else p (lookup host m.domain_map))
      × (first_match lib host m'.wildcard_patterns
          ≡ or_else (first_match lib host m.wildcard_patterns) q)
      × (m'.default_vhost ≡ or_else m.default_vhost d)

  add_domain_lem :
      (host d : String) (v : VirtualHost) (m m' : VHostManager Regex)
      → add_domain lib v d m ≡ some m'
      → Added
          (if is_name_of host d then some v else none)
          (if wildcard_matches host d then some v else none)
          (if is_default d then some v else none)
          host
          m
          m'
  unfolding add_domain
  add_domain_lem host d v m m' h = elim (Option-cases (domain_to_regex lib d)) [
    | inl fails ↦
        ground (arith, fails, Option-cases m.default_vhost, lookup-insert d host v m.domain_map)
    | inr (r, made) ↦ ground (
      arith,
      made,
      Option-cases m.default_vhost,
      Option-cases (first_match lib host m.wildcard_patterns),
      lookup-insert d host v m.domain_map,
      first_match-append host m.wildcard_patterns r v,
    )
  ]

  add_domains_lem :
      (host : String) (v : VirtualHost) (ds : List String) (m m' : VHostManager Regex)
      → add_domains lib v ds m ≡ some m'
      → Added
          (if any (is_name_of host) ds then some v else none)
          (if any (wildcard_matches host) ds then some v else none)
          (if any is_default ds then some v else none)
          host
          m
          m'
  unfolding add_domains
  add_domains_lem host v [] m m' h =
      ground (
        arith,
        Option-cases m.default_vhost,
        Option-cases (first_match lib host m.wildcard_patterns),
      )
  add_domains_lem host v (d ∷ ds) m m' h = elim (Option-cases (add_domain lib v d m)) [
    | inl fails ↦ ground (arith, fails)
    | inr (m1, made) ↦
        ground (arith, made, add_domain_lem host d v m m1 made, add_domains_lem host v ds m1 m')
  ]

  add_vhost_lem :
      (host : String) (v : VirtualHost) (m m' : VHostManager Regex)
      → add_vhost lib v m ≡ some m'
      → Added
          (if names_exactly host v then some v else none)
          (if has_wildcard_for host v then some v else none)
          (if is_default_vhost v then some v else none)
          host
          m
          m'
  unfolding add_vhost
  add_vhost_lem host v m m' h = elim (Option-cases (add_domains lib v v.domains m)) [
    | inl fails ↦ ground (arith, fails)
    | inr (m1, made) ↦ ground (arith, made, add_domains_lem host v v.domains m m1 made)
  ]

  add_all_lem :
      (host : String) (vs : List VirtualHost) (m m' : VHostManager Regex)
      → add_all lib vs m ≡ some m'
      → Added
          (last_where (names_exactly host) vs)
          (first_where (has_wildcard_for host) vs)
          (first_where is_default_vhost vs)
          host
          m
          m'
  unfolding add_all
  add_all_lem host [] m m' h =
      ground (
        arith,
        Option-cases m.default_vhost,
        Option-cases (first_match lib host m.wildcard_patterns),
      )
  add_all_lem host (v ∷ vs) m m' h = elim (Option-cases (add_vhost lib v m)) [
    | inl fails ↦ ground (arith, fails)
    | inr (m1, made) ↦
        ground (arith, made, add_vhost_lem host v m m1 made, add_all_lem host vs m1 m')
  ]

  -- Where `new` succeeds, a host is served by the last virtual host, in the order of falling
  -- priorities, that names it; else by the first one with a wildcard that matches it; else by the
  -- first default one; else by none.
  pub get_vhost-new :
      (vs : List VirtualHost) (m : VHostManager Regex) (host : String)
      → new lib vs ≡ some m
      → get_vhost lib m host
        ≡ or_else (last_where (names_exactly host) (sort_by_priority vs)) (
            or_else
              (first_where (has_wildcard_for host) (sort_by_priority vs))
              (first_where is_default_vhost (sort_by_priority vs)))
  unfolding new get_vhost lookup
  get_vhost-new vs m host h = ground (arith, add_all_lem host (sort_by_priority vs) _ m h)

  -- A wildcard domain whose expression does not compile.
  abbrev pub is_invalid : String → Bool
  is_invalid d = is_wildcard d && is_none (domain_to_regex lib d)

  abbrev pub has_invalid : VirtualHost → Bool
  has_invalid v = any is_invalid v.domains

  add_domain-is_some :
      (v : VirtualHost) (d : String) (m : VHostManager Regex)
      → is_some (add_domain lib v d m) ≡ not (is_invalid d)
  unfolding add_domain
  add_domain-is_some v d m = elim (Option-cases (domain_to_regex lib d)) [
    | inl fails ↦ ground (arith, fails)
    | inr (r, made) ↦ ground (arith, made)
  ]

  add_domains-is_some :
      (v : VirtualHost) (ds : List String) (m : VHostManager Regex)
      → is_some (add_domains lib v ds m) ≡ not (any is_invalid ds)
  unfolding add_domains
  add_domains-is_some v [] m = refl
  add_domains-is_some v (d ∷ ds) m = elim (Option-cases (add_domain lib v d m)) [
    | inl fails ↦ ground (arith, fails, add_domain-is_some v d m)
    | inr (m1, made) ↦ ground (arith, made, add_domain-is_some v d m, add_domains-is_some v ds m1)
  ]

  add_all-is_some :
      (vs : List VirtualHost) (m : VHostManager Regex)
      → is_some (add_all lib vs m) ≡ not (any has_invalid vs)
  unfolding add_all add_vhost
  add_all-is_some [] m = refl
  add_all-is_some (v ∷ vs) m = elim (Option-cases (add_domains lib v v.domains m)) [
    | inl fails ↦ ground (arith, fails, add_domains-is_some v v.domains m)
    | inr (m1, made) ↦ ground (
      arith,
      made,
      add_domains-is_some v v.domains m,
      add_all-is_some vs (record m1 { vhosts = m1.vhosts ++ v ∷ [] }),
    )
  ]

any-place :
    (p : VirtualHost → Bool) (v : VirtualHost) (ws : List VirtualHost)
    → any p (place v ws) ≡ (p v || any p ws)
any-place p v [] = refl
any-place p v (w ∷ ws) = ground (arith, any-place p v ws)

pub any-sort_by_priority :
    (p : VirtualHost → Bool) (vs : List VirtualHost) → any p (sort_by_priority vs) ≡ any p vs
any-sort_by_priority p [] = refl
any-sort_by_priority p (v ∷ vs) =
    ground (arith, any-place p v (sort_by_priority vs), any-sort_by_priority p vs)

-- A manager can be made exactly if no virtual host has a wildcard domain whose expression does not
-- compile.
pub new-is_some :
    {Regex : Type 0} (lib : RegexLibrary Regex) (vs : List VirtualHost)
    → is_some (new lib vs) ≡ not (any (has_invalid lib) vs)
unfolding new
new-is_some lib vs =
    add_all-is_some lib (sort_by_priority vs) _ ∙ ap not (any-sort_by_priority (has_invalid lib) vs)
