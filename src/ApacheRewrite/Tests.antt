-- ===== src/ApacheRewrite/Tests.antt =====
-- rewrite_engine.rs: rules at concrete inputs. An expression here matches its own text only.
use miwidothttp.Prelude.{
  ℕ, ◌≡◌, refl, none, some, List, [], ◌∷◌, String, ◌=?◌, string_eq, if◌then◌else◌, replace,
  to_uppercase, arith, subst, inl, inr, Bool-cases, ◌<◌,
}
use text.Mathlib.TextEquality.{eq_iff}
use miwidothttp.Pattern.{RegexLibrary}
use miwidothttp.Rewrite.{replace_groups, group_name}
use miwidothttp.ApacheRewrite.{
  RewriteConfig, RewriteRule, RewriteFlag, rewrite, no_match, l_flag, qsa_flag, process_url,
  first_verdict, hit, judge, append_query, check_conditions, condition_matches, expand_variables,
  replace_headers, new, compile_rules, compile_conditions,
}
use miwidothttp.ApacheRewrite.Loop.{LeadsTo}
use miwidothttp.ApacheRewrite.Presets.{add_force_www, new_config}

abbrev literal : RegexLibrary String
literal = record {
  compile = some;
  is_match = λ r s. r =? s;
  escape = λ s. s;
  captures = λ r s. if r =? s then some (some s ∷ []) else none;
}

abbrev no_env : String → String
no_env s = s

abbrev rule : String → String → List RewriteFlag → RewriteRule String
rule from to flags = record { pattern = from; replacement = to; flags = flags; regex = some from }

abbrev engine : List (RewriteRule String) → RewriteConfig String
engine rules = record { rules = rules; conditions = [] }

-- The rewritten URL goes through the rules again, and the query string is added each time.
abbrev twice : RewriteConfig String
twice = engine (rule "/a" "/b" (qsa_flag ∷ []) ∷ rule "/b?x=1" "/c" (qsa_flag ∷ l_flag ∷ []) ∷ [])

query_twice : process_url literal no_env 2 twice "/a" (some "x=1") [] ≡ some (rewrite "/c?x=1")
unfolding process_url first_verdict hit judge append_query check_conditions replace_groups
    group_name replace
query_twice = refl

-- A rule without a flag whose result it matches itself.
abbrev spin : RewriteConfig String
spin = engine (rule "/a" "/a" [] ∷ [])

spins :
    (u : String) → u ≡ "/a" → (u' : String) × LeadsTo literal no_env spin none [] u u' × (u' ≡ "/a")
unfolding first_verdict hit judge append_query check_conditions replace_groups group_name replace
spins u e = ("/a", rw e refl, refl)

abbrev chain : RewriteConfig String
chain = engine (rule "/a" "/b" [] ∷ [])

abbrev steps_left : String → ℕ
steps_left u = if u =? "/a" then 1 else 0

chain_at_a : (u' : String) → LeadsTo literal no_env chain none [] "/a" u' → steps_left u' < 1
unfolding first_verdict hit judge append_query check_conditions replace_groups group_name replace
chain_at_a u' h = let e : "/b" ≡ u' = cc in subst (λ v. steps_left v < 1) e (omega arith)

chain_falls :
    (u u' : String) → LeadsTo literal no_env chain none [] u u' → steps_left u' < steps_left u
unfolding first_verdict hit judge append_query check_conditions replace_groups group_name replace
chain_falls u u' h = elim (Bool-cases ("/a" =? u)) [
  | inl same ↦
      let e : "/a" ≡ u = (eq_iff "/a" u).0 same in
      subst (λ v. LeadsTo literal no_env chain none [] v u' → steps_left u' < steps_left v) e
        (chain_at_a u') h
  | inr other ↦ absurd (ground (arith, other))
]

-- The name of a header is put in upper case, so that the condition of `add_force_www` is never met.
host_unread :
    expand_variables literal no_env "%{HTTP:Host}" "/" (("Host", "a.org") ∷ []) ≡ "%{HTTP:Host}"
unfolding expand_variables replace_headers replace to_uppercase
host_unread = refl

www_matches_nothing :
    (c : RewriteConfig String) × (new literal (add_force_www "a" new_config) ≡ some c)
    × (process_url literal no_env 5 c "/" none (("Host", "a") ∷ []) ≡ some no_match)
unfolding new compile_rules compile_conditions add_force_www new_config process_url first_verdict
    hit check_conditions condition_matches expand_variables replace_headers replace to_uppercase
www_matches_nothing = (_, refl, refl)
