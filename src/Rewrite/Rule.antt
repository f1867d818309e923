-- ===== src/Rewrite/Rule.antt =====
-- rewrite.rs (src/rewrite.rs): rules and conditions, and `RewriteEngine::new`, which compiles their
-- patterns. The engine is its list of rules; an error is `none`.
use miwidothttp.Prelude.{
  ℕ, Bool, false, ◌||◌, Option, none, some, List, [], ◌∷◌, String, ◌==◌, unwrap_or, append_text,
  ◌>>=◌, if◌then◌else◌,
}
use miwidothttp.Pattern.{RegexLibrary}

pub data RewriteFlag : Type 0 where
  last_flag break_flag redirect_flag permanent_flag proxy_flag cookie_flag : RewriteFlag
  forbidden_flag gone_flag no_case_flag qs_append_flag qs_discard_flag : RewriteFlag

pub data ConditionFlag : Type 0 where
  no_case or_next negated file dir symlink size exec : ConditionFlag

-- The derived `PartialEq` of the flags, by their position.
abbrev pub flag_index : RewriteFlag → ℕ
flag_index last_flag = 0
flag_index break_flag = 1
flag_index redirect_flag = 2
flag_index permanent_flag = 3
flag_index proxy_flag = 4
flag_index cookie_flag = 5
flag_index forbidden_flag = 6
flag_index gone_flag = 7
flag_index no_case_flag = 8
flag_index qs_append_flag = 9
flag_index qs_discard_flag = 10

abbrev pub condition_flag_index : ConditionFlag → ℕ
condition_flag_index no_case = 0
condition_flag_index or_next = 1
condition_flag_index negated = 2
condition_flag_index file = 3
condition_flag_index dir = 4
condition_flag_index symlink = 5
condition_flag_index size = 6
condition_flag_index exec = 7

abbrev pub has_flag : List RewriteFlag → RewriteFlag → Bool
has_flag [] f = false
has_flag (g ∷ gs) f = flag_index g == flag_index f || has_flag gs f

abbrev pub has_condition_flag : List ConditionFlag → ConditionFlag → Bool
has_condition_flag [] f = false
has_condition_flag (g ∷ gs) f =
    condition_flag_index g == condition_flag_index f || has_condition_flag gs f

pub record RewriteCondition (Regex : Type 0) : Type 0 where
  pub test_string : String
  pub pattern : String
  pub flags : Option (List ConditionFlag)
  pub regex : Option Regex

-- Whether a condition is joined to the next one by "or".
unfoldable pub joins_by_or : {Regex : Type 0} → RewriteCondition Regex → Bool
joins_by_or condition = has_condition_flag (unwrap_or condition.flags []) or_next

pub record RewriteRule (Regex : Type 0) : Type 0 where
  pub pattern : String
  pub replacement : String
  pub flags : Option (List RewriteFlag)
  pub conditions : Option (List (RewriteCondition Regex))
  pub regex : Option Regex

-- `new`: the expression of a pattern, with the flag for ignoring case in front.
abbrev pub flagged_pattern : Bool → String → String
flagged_pattern ignores_case pattern = append_text (if ignores_case then "(?i)" else "") pattern

module _ {Regex : Type 0} (lib : RegexLibrary Regex) where
  unfoldable pub compile_conditions :
      List (RewriteCondition Regex) → Option (List (RewriteCondition Regex))
  compile_conditions [] = some []
  compile_conditions (condition ∷ rest) = do
    re ← lib.compile (
        flagged_pattern (has_condition_flag (unwrap_or condition.flags []) no_case)
          condition.pattern)
    rest' ← compile_conditions rest
    some (record condition { regex = some re } ∷ rest')

  unfoldable pub compile_rule : RewriteRule Regex → Option (RewriteRule Regex)
  unfolding compile_conditions
  compile_rule rule = do
    re ←
        lib.compile (flagged_pattern (has_flag (unwrap_or rule.flags []) no_case_flag) rule.pattern)
    let compiled = record rule { regex = some re }
    elim rule.conditions [
      | none ↦ some compiled
      | some conditions ↦ do
        conditions' ← compile_conditions conditions
        some (record compiled { conditions = some conditions' })
    ]

  unfoldable pub new : List (RewriteRule Regex) → Option (List (RewriteRule Regex))
  unfolding compile_rule
  new [] = some []
  new (rule ∷ rules) = do compiled ← compile_rule rule; rest ← new rules; some (compiled ∷ rest)
