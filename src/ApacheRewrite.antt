-- ===== src/ApacheRewrite.antt =====
-- rewrite_engine.rs (src/rewrite_engine.rs): the rewrite engine in the style of Apache. The crate
-- regex and the replacement of `%{ENV:..}` by the process's environment, which it does through a
-- regex, are parameters; `HashMap` of headers is a list in the order of its iteration.
-- `process_url` calls itself on the rewritten URL and takes fuel. Logging is left out.
use miwidothttp.Prelude.{
  ℕ, zero, suc, Bool, true, false, not, ◌&&◌, ◌||◌, Option, none, some, List, [], ◌∷◌, ◌++◌, String,
  ◌==◌, is_some, is_empty, unwrap_or, replace, contains_text, append_text, to_uppercase,
  if◌then◌else◌, ◌>>=◌,
}
use miwidothttp.Pattern.{RegexLibrary}
use miwidothttp.Rewrite.{replace_groups}
pub mod Loop
pub mod Presets
mod Tests

pub data RewriteFlag : Type 0 where
  l_flag r_flag p_flag f_flag g_flag nc_flag qsa_flag r301_flag r302_flag : RewriteFlag

pub data ConditionFlag : Type 0 where
  nc or_next : ConditionFlag

-- The derived `PartialEq` of the flags, by their position.
abbrev pub flag_number : RewriteFlag → ℕ
flag_number l_flag = 0
flag_number r_flag = 1
flag_number p_flag = 2
flag_number f_flag = 3
flag_number g_flag = 4
flag_number nc_flag = 5
flag_number qsa_flag = 6
flag_number r301_flag = 7
flag_number r302_flag = 8

abbrev pub condition_flag_number : ConditionFlag → ℕ
condition_flag_number nc = 0
condition_flag_number or_next = 1

abbrev pub carries : List RewriteFlag → RewriteFlag → Bool
carries [] f = false
carries (g ∷ gs) f = flag_number g == flag_number f || carries gs f

abbrev pub condition_carries : List ConditionFlag → ConditionFlag → Bool
condition_carries [] f = false
condition_carries (g ∷ gs) f =
    condition_flag_number g == condition_flag_number f || condition_carries gs f

pub record RewriteRule (Regex : Type 0) : Type 0 where
  pub pattern : String
  pub replacement : String
  pub flags : List RewriteFlag
  pub regex : Option Regex

pub record RewriteCondition (Regex : Type 0) : Type 0 where
  pub test_string : String
  pub pattern : String
  pub flags : List ConditionFlag
  pub regex : Option Regex

-- `RewriteConfig`, and `RewriteEngine`, which has the same fields.
pub record RewriteConfig (Regex : Type 0) : Type 0 where
  pub rules : List (RewriteRule Regex)
  pub conditions : List (RewriteCondition Regex)

pub data RewriteResult : Type 0 where
  no_match forbidden gone : RewriteResult
  rewrite proxy : String → RewriteResult
  redirect : String → Bool → RewriteResult

abbrev pub get_url : RewriteResult → String
get_url (rewrite url) = url
get_url (redirect url permanent) = url
get_url (proxy url) = url
get_url no_match = ""
get_url forbidden = ""
get_url gone = ""

-- What a rule that matches leads to: a result, or another call on a rewritten URL.
pub data Verdict : Type 0 where
  stop : RewriteResult → Verdict
  again : String → Verdict

-- The flags of a rule that matches, in the order of their tests.
unfoldable pub judge : List RewriteFlag → String → Verdict
judge flags url =
    if carries flags f_flag
    then stop forbidden
    else (if carries flags g_flag
        then stop gone
        else (if carries flags r_flag || carries flags r301_flag
            then stop (redirect url true)
            else (if carries flags r302_flag
                then stop (redirect url false)
                else (if carries flags p_flag
                    then stop (proxy url)
                    else (if carries flags l_flag then stop (rewrite url) else again url)))))

unfoldable pub append_query : List RewriteFlag → Option String → String → String
append_query flags none url = url
append_query flags (some query) url =
    if carries flags qsa_flag
    then append_text (append_text url (if contains_text url "?" then "&" else "?")) query
    else url

unfoldable pub replace_headers : List (String × String) → String → String
replace_headers [] s = s
replace_headers ((key, value) ∷ hs) s =
    replace_headers hs
      (replace s (append_text "%{HTTP:" (append_text (to_uppercase key) "}")) value)

module _ {Regex : Type 0} (lib : RegexLibrary Regex) where
  -- `Regex::new` of a pattern, with the mark for ignoring case in front.
  abbrev compile_pattern : Bool → String → Option Regex
  compile_pattern ignores_case pattern =
      lib.compile (if ignores_case then append_text "(?i)" pattern else pattern)

  unfoldable pub compile_rules : List (RewriteRule Regex) → Option (List (RewriteRule Regex))
  compile_rules [] = some []
  compile_rules (rule ∷ rules) = do
    re ← compile_pattern (carries rule.flags nc_flag) rule.pattern
    rules' ← compile_rules rules
    some (record rule { regex = some re } ∷ rules')

  unfoldable pub compile_conditions :
      List (RewriteCondition Regex) → Option (List (RewriteCondition Regex))
  compile_conditions [] = some []
  compile_conditions (condition ∷ rest) = do
    re ← compile_pattern (condition_carries condition.flags nc) condition.pattern
    rest' ← compile_conditions rest
    some (record condition { regex = some re } ∷ rest')

  unfoldable pub new : RewriteConfig Regex → Option (RewriteConfig Regex)
  unfolding compile_rules compile_conditions
  new config = do
    rules ← compile_rules config.rules
    conditions ← compile_conditions config.conditions
    some (record { rules = rules; conditions = conditions })

module _ {Regex : Type 0} (lib : RegexLibrary Regex) (expand_env : String → String) where
  unfoldable pub expand_variables : String → String → List (String × String) → String
  unfolding replace_headers
  expand_variables template url headers =
      let s = replace_headers headers (replace template "%{REQUEST_URI}" url) in
      if contains_text s "%{ENV:" then expand_env s else s

  unfoldable pub condition_matches : RewriteCondition Regex → String → List (String × String) → Bool
  unfolding expand_variables
  condition_matches condition url headers = elim condition.regex [
    | none ↦ false
    | some re ↦ lib.is_match re (expand_variables condition.test_string url headers)
  ]

  -- The loop of `check_conditions`, from the result so far.
  unfoldable pub join_conditions :
      Bool → Bool → List (RewriteCondition Regex) → String → List (String × String) → Bool
  join_conditions result use_or [] url headers = result
  join_conditions result use_or (condition ∷ rest) url headers =
      let matches = condition_matches condition url headers in
      join_conditions (if use_or then result || matches else result && matches)
        (condition_carries condition.flags or_next) rest url headers

  unfoldable pub check_conditions :
      List (RewriteCondition Regex) → String → List (String × String) → Bool
  unfolding join_conditions
  check_conditions conditions url headers =
      if is_empty conditions then true else join_conditions true false conditions url headers

  -- The capture groups of a rule that applies.
  unfoldable pub hit :
      RewriteRule Regex
      → List (RewriteCondition Regex)
      → String
      → List (String × String)
      → Option (List (Option String))
  unfolding check_conditions
  hit rule conditions url headers =
      if check_conditions conditions url headers
      then elim rule.regex [ none ↦ none | some re ↦ lib.captures re url ]
      else none

  -- The loop of `process_url`: the verdict of the first rule that applies.
  unfoldable pub first_verdict :
      List (RewriteRule Regex)
      → List (RewriteCondition Regex)
      → String
      → Option String
      → List (String × String)
      → Option Verdict
  first_verdict [] conditions url query headers = none
  first_verdict (rule ∷ rules) conditions url query headers =
      let rest = first_verdict rules conditions url query headers in
      elim (hit rule conditions url headers) [
        | none ↦ rest
        | some captures ↦ some (
            judge rule.flags
              (append_query rule.flags query (replace_groups 0 captures rule.replacement)))
      ]

  abbrev pub verdict :
      RewriteConfig Regex → String → Option String → List (String × String) → Option Verdict
  verdict engine url query headers = first_verdict engine.rules engine.conditions url query headers

  -- `none` where the fuel runs out.
  unfoldable pub process_url :
      ℕ
      → RewriteConfig Regex
      → String
      → Option String
      → List (String × String)
      → Option RewriteResult
  process_url zero engine url query headers = none
  process_url (suc fuel) engine url query headers = elim (verdict engine url query headers) [
    | none ↦ some no_match
    | some v ↦ elim v [
      | stop r ↦ some r
      | again url' ↦ process_url fuel engine (get_url (rewrite url')) query headers
    ]
  ]
