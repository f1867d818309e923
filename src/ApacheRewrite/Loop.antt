-- ===== src/ApacheRewrite/Loop.antt =====
-- rewrite_engine.rs: when `process_url`, which calls itself, comes to an end.
use miwidothttp.Prelude.{
  ℕ, zero, suc, ◌<◌, ◌≡◌, ◌≢◌, Bool, refl, Option, none, some, List, ◌||◌, true, [], ◌∷◌, All,
  String, arith, Option-cases, inl, inr,
}
use miwidothttp.Pattern.{RegexLibrary}
use miwidothttp.Rewrite.{replace_groups}
use miwidothttp.ApacheRewrite.{
  RewriteConfig, RewriteCondition, RewriteRule, RewriteFlag, RewriteResult, no_match, stop, again,
  judge, carries, f_flag, g_flag, r_flag, r301_flag, r302_flag, p_flag, l_flag, verdict,
  first_verdict, hit, append_query, process_url,
}

module _ {Regex : Type 0} (lib : RegexLibrary Regex) (expand_env : String → String)
    (engine : RewriteConfig Regex) (query : Option String) (headers : List (String × String)) where
  -- The call on one URL leads to a call on another.
  abbrev pub LeadsTo : String → String → Type 0
  LeadsTo url url' = verdict lib expand_env engine url query headers ≡ some (again url')

  -- Where a number falls with each call that leads to another, the number of the first URL and one
  -- more is fuel enough for a result.
  pub process_url-total :
      (size : String → ℕ) (fuel : ℕ) (url : String)
      → ((u u' : String) → LeadsTo u u' → size u' < size u)
      → size url < fuel
      → (r : RewriteResult) × (process_url lib expand_env fuel engine url query headers ≡ some r)
  unfolding process_url
  process_url-total size zero url falls enough = absurd (omega arith)
  process_url-total size (suc fuel) url falls enough =
      elim (Option-cases (verdict lib expand_env engine url query headers)) [
        | inl misses ↦ (no_match, rw (process_url, misses))
        | inr (stop r, found) ↦ (r, rw (process_url, found))
        | inr (again u, found) ↦
            rw (process_url, found)
              (process_url-total size fuel u falls (omega (arith, falls url u found)))
      ]

  -- Where each URL of a set leads to a call on a URL of the set, a call on any of them never ends: no
  -- fuel is enough.
  pub process_url-never_ends {κ} :
      (P : String → Type κ) (fuel : ℕ) (url : String)
      → ((u : String) → P u → (u' : String) × LeadsTo u u' × P u')
      → P url
      → process_url lib expand_env fuel engine url query headers ≡ none
  unfolding process_url
  process_url-never_ends P zero url closed start = refl
  process_url-never_ends P (suc fuel) url closed start =
      let (u, found, stays) = closed url start in
      rw (process_url, found) (process_url-never_ends P fuel u closed stays)

-- The flags with which a rule that matches ends the rewriting.
abbrev pub ends : List RewriteFlag → Bool
ends flags =
    carries flags f_flag
    || carries flags g_flag
    || carries flags r_flag
    || carries flags r301_flag
    || carries flags r302_flag
    || carries flags p_flag
    || carries flags l_flag

judge-ne-again :
    (flags : List RewriteFlag) (url u : String) → ends flags ≡ true → judge flags url ≢ again u
unfolding judge
judge-ne-again flags url u h = ground arith

module _ {Regex : Type 0} (lib : RegexLibrary Regex) (expand_env : String → String) where
  first_verdict-ne-again :
      (rules : List (RewriteRule Regex)) (conditions : List (RewriteCondition Regex))
      (url u : String) (query : Option String) (headers : List (String × String))
      → All (λ rule. ends rule.flags ≡ true) rules
      → first_verdict lib expand_env rules conditions url query headers ≢ some (again u)
  unfolding first_verdict
  first_verdict-ne-again [] conditions url u query headers h = ground arith
  first_verdict-ne-again (rule ∷ rules) conditions url u query headers h =
      elim (Option-cases (hit lib expand_env rule conditions url headers)) [
        | inl misses ↦
            ground (arith, misses, first_verdict-ne-again rules conditions url u query headers h.1)
        | inr (captures, found) ↦ ground (
          arith,
          found,
          judge-ne-again rule.flags
              (append_query rule.flags query (replace_groups 0 captures rule.replacement)) u h.0,
        )
      ]

  -- Where each rule has a flag that ends the rewriting, one call is enough.
  pub process_url-ends :
      (engine : RewriteConfig Regex) (url : String) (query : Option String)
      (headers : List (String × String))
      → All (λ rule. ends rule.flags ≡ true) engine.rules
      → (r : RewriteResult) × (process_url lib expand_env 1 engine url query headers ≡ some r)
  process_url-ends engine url query headers h =
      process_url-total lib expand_env engine query headers (λ u. 0) 1 url
        (λ u u' leads.
          absurd (first_verdict-ne-again engine.rules engine.conditions u u' query headers h leads))
        (omega arith)
