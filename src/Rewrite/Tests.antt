-- ===== src/Rewrite/Tests.antt =====
-- rewrite.rs: rules at concrete inputs. An expression here matches its own text only, and a URI is
-- its text.
use miwidothttp.Prelude.{
  ◌≡◌, refl, false, Option, none, some, List, [], ◌∷◌, String, ◌=?◌, string_eq, if◌then◌else◌,
  replace,
}
use miwidothttp.Prelude.Assoc.{lookup}
use miwidothttp.Pattern.{RegexLibrary}
use miwidothttp.Rewrite.{
  RewriteCondition, RewriteRule, RewriteContext, internal, UriLibrary, FileSystem, or_next,
  ConditionFlag, check_conditions, process, run_rules, apply_rule, handle_flags, apply_replacement,
  replace_groups, expand_variables, replace_variables, group_name,
}
use miwidothttp.Rewrite.Outcome.{SameRequest, Fits, process-Fits}

abbrev literal_regex : RegexLibrary String
literal_regex = record {
  compile = some;
  is_match = λ r s. r =? s;
  escape = λ s. s;
  captures = λ r s. if r =? s then some (some s ∷ []) else none;
}

abbrev text_uri : UriLibrary String
text_uri = record {
  to_string = λ u. u;
  parse = some;
  scheme_str = λ u. none;
  path = λ u. u;
  query = λ u. none;
}

abbrev no_files : FileSystem
no_files = record {
  is_file = λ p. false;
  is_dir = λ p. false;
  is_symlink = λ p. false;
  file_size = λ p. none;
}

abbrev rule : String → String → RewriteRule String
rule from to = record {
  pattern = from;
  replacement = to;
  flags = none;
  conditions = none;
  regex = some from;
}

abbrev context : RewriteContext String
context = record {
  uri = "/a";
  method = "GET";
  headers = ("user-agent", "curl") ∷ [];
  remote_addr = "10.0.0.1";
  server_name = "a.org";
  variables = [];
}

-- The second rule does not see what the first has made of the URI.
abbrev rules : List (RewriteRule String)
rules = rule "/a" "$0/$host" ∷ rule "/a/a.org" "/c" ∷ []

no_chain :
    process literal_regex text_uri no_files rules context
    ≡ (record context { uri = "/a/a.org" }, some (some (internal "/a/a.org")))
unfolding process run_rules apply_rule handle_flags check_conditions apply_replacement
    replace_groups expand_variables replace_variables replace lookup group_name
no_chain = refl

process-Fits_example :
    SameRequest literal_regex text_uri no_files context
      (process literal_regex text_uri no_files rules context).0
    × Fits literal_regex text_uri no_files
        (process literal_regex text_uri no_files rules context).1
        context
        (process literal_regex text_uri no_files rules context).0
process-Fits_example = process-Fits literal_regex text_uri no_files rules context

abbrev host_is : String → Option (List ConditionFlag) → RewriteCondition String
host_is host flags = record {
  test_string = "$host";
  pattern = host;
  flags = flags;
  regex = some host;
}

abbrev either : RewriteCondition String
either = host_is "b.org" (some (or_next ∷ []))

abbrev or_this : RewriteCondition String
or_this = host_is "a.org" none

abbrev guarded : RewriteRule String
guarded = record (rule "/a" "/b") { conditions = some (either ∷ or_this ∷ or_this ∷ []) }
