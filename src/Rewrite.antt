-- ===== src/Rewrite.antt =====
-- rewrite.rs (src/rewrite.rs): the rewrite engine in the style of nginx. The crate regex, the crate
-- http's `Uri` and the file system are parameters; a header is the text that `to_str` gives. The
-- iteration order of the variables' map is the order of the list. Tracing is left out.
use miwidothttp.Prelude.{
  ℕ, zero, suc, ◌+◌, ◌/◌, ◌%◌, Bool, true, false, not, ◌&&◌, ◌||◌, Option, none, some, List, [],
  ◌∷◌, String, ltb, ◌==◌, unwrap_or, replace, append_text, ◌>>=◌, ◌=?◌, string_eq, if◌then◌else◌,
}
use Prim.Native.String.{slice}
use miwidothttp.Prelude.Assoc.{lookup}
use miwidothttp.Pattern.{RegexLibrary}
mod Rule
unfoldable pub use Rule.*
mod Tests
pub mod Outcome

-- What is called of `Uri`; a text that is no URI is `none`.
pub record UriLibrary (Uri : Type 0) : Type 0 where
  pub to_string : Uri → String
  pub parse : String → Option Uri
  pub scheme_str : Uri → Option String
  pub path : Uri → String
  pub query : Uri → Option String

pub record FileSystem : Type 0 where
  pub is_file : String → Bool
  pub is_dir : String → Bool
  pub is_symlink : String → Bool
  pub file_size : String → Option ℕ

pub record RewriteContext (Uri : Type 0) : Type 0 where
  pub uri : Uri
  pub method : String
  pub headers : List (String × String)
  pub remote_addr : String
  pub server_name : String
  pub variables : List (String × String)

pub data RewriteAction (Uri : Type 0) : Type 0 where
  internal : Uri → RewriteAction Uri
  redirect : String → Bool → RewriteAction Uri
  proxy : String → RewriteAction Uri
  forbidden gone : RewriteAction Uri

-- What a rule that matches leads to: the next rule, an action, or an error.
pub data Verdict (Uri : Type 0) : Type 0 where
  go_on : Verdict Uri
  act : RewriteAction Uri → Verdict Uri
  failed : Verdict Uri

-- A number's decimal digits, on fuel: a number has no more digits than it counts, and one.
decimal : ℕ → ℕ → String
decimal zero n = ""
decimal (suc fuel) n =
    let rest = decimal fuel (n / 10) in
    let digit = slice "0123456789" (n % 10) (n % 10 + 1) in
    if ltb n 10 then digit else append_text rest digit

unfoldable pub decimal_text : ℕ → String
unfolding decimal
decimal_text i = decimal (i + 1) i

-- `format!("${}", i)`.
unfoldable pub group_name : ℕ → String
unfolding decimal_text
group_name i = append_text "$" (decimal_text i)

-- The loop over the capture groups, from the i-th on.
unfoldable pub replace_groups : ℕ → List (Option String) → String → String
unfolding group_name
replace_groups i [] s = s
replace_groups i (none ∷ gs) s = replace_groups (i + 1) gs s
replace_groups i (some g ∷ gs) s = replace_groups (i + 1) gs (replace s (group_name i) g)

unfoldable pub replace_variables : List (String × String) → String → String
replace_variables [] s = s
replace_variables ((key, value) ∷ vs) s =
    replace_variables vs (replace s (append_text "${" (append_text key "}")) value)

-- A header's value where the request has it, and the text as it is where it has not.
abbrev pub replace_header : Option String → String → String → String
replace_header none name s = s
replace_header (some value) name s = replace s name value

module _ {Regex Uri : Type 0} (lib : RegexLibrary Regex) (uris : UriLibrary Uri)
    (fs : FileSystem) where
  unfoldable pub expand_variables : String → RewriteContext Uri → String
  unfolding replace_variables
  expand_variables input c =
      let s1 = replace input "$scheme" (unwrap_or (uris.scheme_str c.uri) "http") in
      let s2 = replace s1 "$host" c.server_name in
      let s3 = replace s2 "$request_uri" (uris.path c.uri) in
      let s4 = replace s3 "$remote_addr" c.remote_addr in
      let s5 = replace s4 "$request_method" c.method in
      let query = unwrap_or (uris.query c.uri) "" in
      let s6 = replace (replace s5 "$query_string" query) "$args" query in
      let s7 = replace_header (lookup "user-agent" c.headers) "$http_user_agent" s6 in
      let s8 = replace_header (lookup "referer" c.headers) "$http_referer" s7 in
      let s9 = replace_header (lookup "cookie" c.headers) "$http_cookie" s8 in
      replace_variables c.variables s9

  unfoldable pub apply_replacement : String → List (Option String) → RewriteContext Uri → String
  unfolding replace_groups expand_variables
  apply_replacement replacement captures c =
      expand_variables (replace_groups 0 captures replacement) c

  -- One condition's own answer, before it is joined to the others.
  unfoldable pub condition_holds : RewriteCondition Regex → RewriteContext Uri → Bool
  unfolding expand_variables
  condition_holds condition c =
      let test_string = expand_variables condition.test_string c in
      let flags = unwrap_or condition.flags [] in
      let found : Bool = elim condition.regex [
        | none ↦ false
        | some re ↦ lib.is_match re test_string
      ] in
      let matched = if has_condition_flag flags negated then not found else found in
      if has_condition_flag flags file
      then fs.is_file test_string
      else (if has_condition_flag flags dir
          then fs.is_dir test_string
          else (if has_condition_flag flags symlink
              then fs.is_symlink test_string
              else (if has_condition_flag flags size
                  then elim (fs.file_size test_string) [ none ↦ false | some n ↦ ltb 0 n ]
                  else matched)))

  -- The loop of `check_conditions`, from the result so far.
  unfoldable pub join_conditions :
      Bool → Bool → List (RewriteCondition Regex) → RewriteContext Uri → Bool
  join_conditions result use_or [] c = result
  join_conditions result use_or (condition ∷ rest) c =
      let holds = condition_holds condition c in
      join_conditions (if use_or then result || holds else result && holds) (joins_by_or condition)
        rest c

  unfoldable pub check_conditions : RewriteRule Regex → RewriteContext Uri → Bool
  unfolding join_conditions
  check_conditions rule c = elim rule.conditions [
    | none ↦ true
    | some conditions ↦ join_conditions true false conditions c
  ]

  -- The flags of a rule that matches, in the order of their tests.
  unfoldable pub handle_flags :
      List RewriteFlag → String → RewriteContext Uri → RewriteContext Uri × Verdict Uri
  handle_flags flags new_uri c =
      if has_flag flags redirect_flag
      then (c, act (redirect new_uri false))
      else (if has_flag flags permanent_flag
          then (c, act (redirect new_uri true))
          else (if has_flag flags forbidden_flag
              then (c, act forbidden)
              else (if has_flag flags gone_flag
                  then (c, act gone)
                  else (if has_flag flags proxy_flag
                      then (c, act (proxy new_uri))
                      else elim (uris.parse new_uri) [
                        | none ↦ (c, failed)
                        | some uri ↦ (
                          record c { uri = uri },
                          if has_flag flags last_flag || has_flag flags break_flag
                              then act (internal uri)
                              else go_on,
                        )
                      ]))))

  -- One round of the loop of `process`. Every pattern is matched against the original URI.
  unfoldable pub apply_rule :
      String → RewriteRule Regex → RewriteContext Uri → RewriteContext Uri × Verdict Uri
  apply_rule original rule c =
      if check_conditions rule c
      then elim rule.regex [
        | none ↦ (c, go_on)
        | some re ↦ elim (lib.captures re original) [
          | none ↦ (c, go_on)
          | some captures ↦
              handle_flags (unwrap_or rule.flags []) (apply_replacement rule.replacement captures c)
                c
        ]
      ]
      else (c, go_on)

  unfoldable pub run_rules :
      String → List (RewriteRule Regex) → RewriteContext Uri → RewriteContext Uri × Verdict Uri
  run_rules original [] c = (c, go_on)
  run_rules original (rule ∷ rules) c =
      let (c', verdict) = apply_rule original rule c in
      elim verdict [
        | go_on ↦ run_rules original rules c'
        | act a ↦ (c', act a)
        | failed ↦ (c', failed)
      ]

  -- What `process` answers after its loop.
  abbrev pub answer :
      String → RewriteContext Uri → Verdict Uri → Option (Option (RewriteAction Uri))
  answer original c (act a) = some (some a)
  answer original c failed = none
  answer original c go_on =
      if not (uris.to_string c.uri =? original) then some (some (internal c.uri)) else some none

  -- `process`: the context it leaves, and `none` for an error.
  unfoldable pub process :
      List (RewriteRule Regex)
      → RewriteContext Uri
      → RewriteContext Uri × Option (Option (RewriteAction Uri))
  process rules c =
      let original = uris.to_string c.uri in
      let (c', verdict) = run_rules original rules c in (c', answer original c' verdict)
