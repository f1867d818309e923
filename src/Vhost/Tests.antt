-- ===== src/Vhost/Tests.antt =====
-- vhost.rs: concrete virtual hosts, with a small matcher for expressions of the form
-- `^[^.]+<rest>$`, which are all that the domains here make.
use miwidothttp.Prelude.{
  ℕ, Bool, ◌≡◌, refl, false, none, some, List, [], ◌∷◌, String, pos, AtMost, inl, inr, split_head,
  append_text, if◌then◌else◌, replace, ◌=?◌, string_eq,
}
use Prim.Native.String.{slice, find, len}
use miwidothttp.Pattern.{RegexLibrary}
use miwidothttp.Vhost.{
  VirtualHost, VHostManager, new, get_vhost, matches_ip_pattern, domain_to_regex, add_all,
  add_vhost, add_domains, add_domain,
}
use miwidothttp.Vhost.Lookup.{
  get_vhost-new, or_else, last_where, first_where, names_exactly, has_wildcard_for,
  is_default_vhost,
}
use miwidothttp.Vhost.Priority.{exact_lowest}
use miwidothttp.Prelude.Assoc.{lookup, insert}

abbrev label_matches : String → String → Bool
label_matches r s = r =? append_text "^[^.]+" (append_text (slice s (find s ".") (len s)) "$")

abbrev label_regex : RegexLibrary String
label_regex = record {
  compile = some;
  is_match = label_matches;
  captures = λ r s. if label_matches r s then some (some s ∷ []) else none;
  escape = λ s. replace s "*" "\\*";
}

abbrev host : List String → ℕ → VirtualHost
host domains priority = record {
  domains = domains;
  priority = pos priority;
  ssl = none;
  root = none;
  backend = none;
  logging = none;
  limits = none;
  headers = none;
  error_pages = none;
  redirects = none;
  access_control = none;
}

abbrev low : VirtualHost
low = host ("a.org" ∷ []) 1

abbrev high : VirtualHost
high = host ("a.org" ∷ "*.b.org" ∷ "_" ∷ []) 10

abbrev manager : VHostManager String
manager = record {
  vhosts = high ∷ low ∷ [];
  domain_map = ("a.org", low) ∷ [];
  wildcard_patterns = ("^[^.]+.b.org$", high) ∷ [];
  default_vhost = some high;
}

made : new label_regex (low ∷ high ∷ []) ≡ some manager
unfolding new domain_to_regex add_all add_vhost add_domains add_domain insert replace
made = refl

-- Both name a.org: the one of lower priority answers.
found :
    (get_vhost label_regex manager "a.org" ≡ some low)
    × (get_vhost label_regex manager "x.b.org" ≡ some high)
    × (get_vhost label_regex manager "c.org" ≡ some high)
unfolding get_vhost lookup
found = (refl, refl, refl)

get_vhost-new_example :
    get_vhost label_regex manager "a.org"
    ≡ or_else (last_where (names_exactly "a.org") (high ∷ low ∷ [])) (
        or_else
          (first_where (has_wildcard_for label_regex "a.org") (high ∷ low ∷ []))
          (first_where is_default_vhost (high ∷ low ∷ [])))
get_vhost-new_example = get_vhost-new label_regex (low ∷ high ∷ []) manager "a.org" made

exact_lowest_example :
    (w : VirtualHost) × (get_vhost label_regex manager "a.org" ≡ some w)
    × AtMost w.priority (pos 10)
exact_lowest_example =
    exact_lowest label_regex (low ∷ high ∷ []) manager "a.org" high made (inr (inl refl)) refl

-- A network in CIDR notation does not match the addresses in it.
cidr_misses : matches_ip_pattern label_regex "10.1.2.3" "10.0.0.0/8" ≡ false
unfolding matches_ip_pattern split_head
cidr_misses = refl
