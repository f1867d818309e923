-- ===== src/Vhost.antt =====
-- vhost.rs (src/vhost.rs): the virtual hosts and `VHostManager`. `Regex` and the calls of the crate
-- regex are parameters; `Arc` is left out, since no virtual host changes once it is shared, and an
-- error is `none`.
use miwidothttp.Prelude.{
  ℕ, Bool, true, false, not, ◌&&◌, ◌||◌, Option, none, some, List, [], ◌∷◌, ◌++◌, String, ltb_ℤ,
  length, is_none, contains_text, starts_with, replace, split_head, ◌=?◌, string_eq, nat_eq,
  if◌then◌else◌, append_text,
}
use miwidothttp.Prelude.Assoc.{lookup, insert}
use miwidothttp.Pattern.{RegexLibrary}
mod Config
pub mod Lookup
pub mod Priority
pub mod Access
mod Tests
pub use Config.*

pub record VHostManager (Regex : Type 0) : Type 0 where
  pub vhosts : List VirtualHost
  pub domain_map : List (String × VirtualHost)
  pub wildcard_patterns : List (Regex × VirtualHost)
  pub default_vhost : Option VirtualHost

-- `sort_by(|a, b| b.priority.cmp(&a.priority))`: stable, the highest priority first.
abbrev pub place : VirtualHost → List VirtualHost → List VirtualHost
place v [] = v ∷ []
place v (w ∷ ws) = if ltb_ℤ v.priority w.priority then w ∷ place v ws else v ∷ (w ∷ ws)

abbrev pub sort_by_priority : List VirtualHost → List VirtualHost
sort_by_priority [] = []
sort_by_priority (v ∷ vs) = place v (sort_by_priority vs)

abbrev pub is_default : String → Bool
is_default domain = domain =? "_" || domain =? "default"

abbrev pub is_wildcard : String → Bool
is_wildcard domain = not (is_default domain) && contains_text domain "*"

abbrev pub is_exact : String → Bool
is_exact domain = not (is_default domain) && not (contains_text domain "*")

-- `opt.and_then(f)`.
abbrev pub and_then : {A B : Type 0} → Option A → (A → Option B) → Option B
and_then none f = none
and_then (some a) f = f a

-- The first redirect whose `from` the path starts with.
abbrev pub first_redirect : String → List Redirect → Option Redirect
first_redirect path [] = none
first_redirect path (r ∷ rs) = if starts_with path r.from then some r else first_redirect path rs

-- `flat_map(|v| v.domains.clone())`.
abbrev pub all_domains : List VirtualHost → List String
all_domains [] = []
all_domains (v ∷ vs) = v.domains ++ all_domains vs

module _ {Regex : Type 0} (lib : RegexLibrary Regex) where
  unfoldable pub domain_to_regex : String → Option Regex
  domain_to_regex domain =
      lib.compile (append_text "^" (append_text (replace (lib.escape domain) "\\*" "[^.]+") "$"))

  -- One domain in the loop of `add_vhost`.
  unfoldable pub add_domain :
      VirtualHost → String → VHostManager Regex → Option (VHostManager Regex)
  add_domain v domain m =
      if is_default domain
      then some (if is_none m.default_vhost then record m { default_vhost = some v } else m)
      else (if contains_text domain "*"
          then and_then (domain_to_regex domain) (λ pattern.
            some (record m { wildcard_patterns = m.wildcard_patterns ++ (pattern, v) ∷ [] }))
          else some (record m { domain_map = insert domain v m.domain_map }))

  unfoldable pub add_domains :
      VirtualHost → List String → VHostManager Regex → Option (VHostManager Regex)
  add_domains v [] m = some m
  add_domains v (d ∷ ds) m = and_then (add_domain v d m) (add_domains v ds)

  unfoldable pub add_vhost : VirtualHost → VHostManager Regex → Option (VHostManager Regex)
  unfolding add_domains
  add_vhost v m =
      and_then (add_domains v v.domains m) (λ m'. some (record m' { vhosts = m'.vhosts ++ v ∷ [] }))

  -- The loop of `new`.
  unfoldable pub add_all : List VirtualHost → VHostManager Regex → Option (VHostManager Regex)
  add_all [] m = some m
  add_all (v ∷ vs) m = and_then (add_vhost v m) (add_all vs)

  unfoldable pub new : List VirtualHost → Option (VHostManager Regex)
  unfolding add_all
  new vhosts =
      add_all (sort_by_priority vhosts)
        (record { vhosts = []; domain_map = []; wildcard_patterns = []; default_vhost = none })

  -- The loop over the wildcard patterns.
  abbrev pub first_match : String → List (Regex × VirtualHost) → Option VirtualHost
  first_match hostname [] = none
  first_match hostname ((pattern, v) ∷ rest) =
      if lib.is_match pattern hostname then some v else first_match hostname rest

  unfoldable pub get_vhost : VHostManager Regex → String → Option VirtualHost
  get_vhost m hostname = elim (lookup hostname m.domain_map) [
    | some v ↦ some v
    | none ↦ elim (first_match hostname m.wildcard_patterns) [
      | some v ↦ some v
      | none ↦ m.default_vhost
    ]
  ]

  pub get_ssl_config : VHostManager Regex → String → Option VHostSsl
  get_ssl_config m hostname = and_then (get_vhost m hostname) (λ v. v.ssl)

  pub get_backend_urls : VHostManager Regex → String → Option (List String)
  get_backend_urls m hostname =
      and_then (get_vhost m hostname) (λ v. and_then v.backend (λ b. some b.urls))

  pub get_rate_limit : VHostManager Regex → String → Option ℕ
  get_rate_limit m hostname =
      and_then (get_vhost m hostname) (λ v. and_then v.limits (λ l. l.rate_limit))

  unfoldable pub matches_ip_pattern : String → String → Bool
  matches_ip_pattern ip pattern =
      if pattern =? "*"
      then true
      else (if contains_text pattern "/"
          then starts_with ip (split_head pattern "/")
          else elim (if contains_text pattern "*"
              then lib.compile (
                  append_text "^"
                    (append_text (replace (replace pattern "." "\\.") "*" "\\d+") "$"))
              else none) [ none ↦ ip =? pattern | some re ↦ lib.is_match re ip ])

  -- The loops of `check_access` over a list of patterns: whether one of them matches.
  unfoldable pub matches_any : String → List String → Bool
  matches_any ip [] = false
  matches_any ip (pattern ∷ rest) = matches_ip_pattern ip pattern || matches_any ip rest

  abbrev pub allowed_by : String → Option (List String) → Bool
  allowed_by ip none = true
  allowed_by ip (some allow_list) = matches_any ip allow_list

  abbrev pub denied_by : String → Option (List String) → Bool
  denied_by ip none = false
  denied_by ip (some deny_list) = matches_any ip deny_list

  unfoldable pub check_access : VHostManager Regex → String → String → Bool
  check_access m hostname client_ip = elim (get_vhost m hostname) [
    | none ↦ false
    | some v ↦ elim v.access_control [
      | none ↦ true
      | some access ↦
          if denied_by client_ip access.deny then false else allowed_by client_ip access.allow
    ]
  ]

  pub get_error_page : VHostManager Regex → String → ℕ → Option String
  get_error_page m hostname status_code =
      and_then (get_vhost m hostname) (λ v. and_then v.error_pages (lookup status_code))

  pub get_custom_headers : VHostManager Regex → String → Option (List (String × String))
  get_custom_headers m hostname = and_then (get_vhost m hostname) (λ v. v.headers)

  pub find_redirect : VHostManager Regex → String → String → Option Redirect
  find_redirect m hostname path =
      and_then (get_vhost m hostname) (λ v. and_then v.redirects (first_redirect path))

  pub list_vhosts : VHostManager Regex → List String
  list_vhosts m = all_domains m.vhosts

  pub get_vhost_count : VHostManager Regex → ℕ
  get_vhost_count m = length m.vhosts
