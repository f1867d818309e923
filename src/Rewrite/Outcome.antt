-- ===== src/Rewrite/Outcome.antt =====
-- rewrite.rs: how conditions are joined, and how what `process` answers agrees with the context that
-- it leaves.
use miwidothttp.Prelude.{
  ◌≡◌, refl, inl, inr, Bool, true, false, ◌&&◌, ◌||◌, Option, none, some, List, [], ◌∷◌, ◌++◌,
  String, unwrap_or, ◌=?◌, string_eq, arith, Bool-cases, Option-cases,
}
use text.Mathlib.TextEquality.{eq_iff}
use miwidothttp.Pattern.{RegexLibrary}
use miwidothttp.Rewrite.{
  RewriteCondition, RewriteRule, RewriteContext, RewriteAction, internal, redirect, proxy,
  forbidden, gone, UriLibrary, FileSystem, Verdict, go_on, act, failed, joins_by_or,
  condition_holds, join_conditions, check_conditions, handle_flags, apply_rule, run_rules, answer,
  process, apply_replacement, RewriteFlag,
}

module _ {Regex Uri : Type 0} (lib : RegexLibrary Regex) (uris : UriLibrary Uri)
    (fs : FileSystem) where
  abbrev pub all_hold : List (RewriteCondition Regex) → RewriteContext Uri → Bool
  all_hold [] c = true
  all_hold (x ∷ xs) c = condition_holds lib uris fs x c && all_hold xs c

  abbrev pub some_hold : List (RewriteCondition Regex) → RewriteContext Uri → Bool
  some_hold [] c = false
  some_hold (x ∷ xs) c = condition_holds lib uris fs x c || some_hold xs c

  abbrev pub NoneJoins : List (RewriteCondition Regex) → Type 0
  NoneJoins [] = Unit
  NoneJoins (x ∷ xs) = (joins_by_or x ≡ false) × NoneJoins xs

  abbrev pub AllJoin : List (RewriteCondition Regex) → Type 0
  AllJoin [] = Unit
  AllJoin (x ∷ xs) = (joins_by_or x ≡ true) × AllJoin xs

  join-or_run :
      (xs ys : List (RewriteCondition Regex)) (c : RewriteContext Uri) (r : Bool)
      → AllJoin xs
      → join_conditions lib uris fs r true (xs ++ ys) c
        ≡ join_conditions lib uris fs (r || some_hold xs c) true ys c
  unfolding join_conditions
  join-or_run [] ys c r h = ground arith
  join-or_run (x ∷ xs) ys c r h = ground (
    arith,
    h.0,
    join-or_run xs ys c (r || condition_holds lib uris fs x c) h.1,
    Bool-cases r,
    Bool-cases (condition_holds lib uris fs x c),
  )

  join-and_run :
      (xs : List (RewriteCondition Regex)) (c : RewriteContext Uri) (r : Bool)
      → NoneJoins xs
      → join_conditions lib uris fs r false xs c ≡ (r && all_hold xs c)
  unfolding join_conditions
  join-and_run [] c r h = ground arith
  join-and_run (x ∷ xs) c r h = ground (
    arith,
    h.0,
    join-and_run xs c (r && condition_holds lib uris fs x c) h.1,
    Bool-cases r,
    Bool-cases (condition_holds lib uris fs x c),
  )

  -- A rule whose first conditions are joined by "or", up to one that is not, and whose others are not
  -- joined by "or", applies exactly if one of those holds and all of the others do.
  pub check_conditions-or_and :
      (rule : RewriteRule Regex) (c : RewriteContext Uri) (xs zs : List (RewriteCondition Regex))
      (y : RewriteCondition Regex)
      → rule.conditions ≡ some (xs ++ y ∷ zs)
      → AllJoin xs
      → joins_by_or y ≡ false
      → NoneJoins zs
      → check_conditions lib uris fs rule c
        ≡ ((some_hold xs c || condition_holds lib uris fs y c) && all_hold zs c)
  unfolding check_conditions join_conditions
  check_conditions-or_and rule c [] zs y e a n h =
      ground (arith, e, n, join-and_run zs c (condition_holds lib uris fs y c) h)
  check_conditions-or_and rule c (x ∷ xs) zs y e a n h = ground (
    arith,
    e,
    n,
    a.0,
    join-or_run xs (y ∷ zs) c (condition_holds lib uris fs x c) a.1,
    join-and_run zs c
        ((condition_holds lib uris fs x c || some_hold xs c) || condition_holds lib uris fs y c) h,
  )

  -- The context without its URI.
  abbrev pub SameRequest : RewriteContext Uri → RewriteContext Uri → Type 0
  SameRequest c c' = c' ≡ record c { uri = c'.uri }

  handle_flags-uri :
      (flags : List RewriteFlag) (new_uri : String) (c : RewriteContext Uri) (u : Uri)
      → (handle_flags lib uris fs flags new_uri c).1 ≡ act (internal u)
      → u ≡ (handle_flags lib uris fs flags new_uri c).0.uri
  unfolding handle_flags
  handle_flags-uri flags new_uri c u h = elim (Option-cases (uris.parse new_uri)) [
    | inl fails ↦ ground (arith, fails)
    | inr (uri, made) ↦ ground (arith, made)
  ]

  handle_flags-SameRequest :
      (flags : List RewriteFlag) (new_uri : String) (c : RewriteContext Uri)
      → SameRequest c (handle_flags lib uris fs flags new_uri c).0
  unfolding handle_flags
  handle_flags-SameRequest flags new_uri c = elim (Option-cases (uris.parse new_uri)) [
    | inl fails ↦ ground (arith, fails)
    | inr (uri, made) ↦ ground (arith, made)
  ]

  apply_rule-uri :
      (original : String) (rule : RewriteRule Regex) (c : RewriteContext Uri) (u : Uri)
      → (apply_rule lib uris fs original rule c).1 ≡ act (internal u)
      → u ≡ (apply_rule lib uris fs original rule c).0.uri
  unfolding apply_rule
  apply_rule-uri original rule c u h = elim (Option-cases rule.regex) [
    | inl fails ↦ ground (arith, fails)
    | inr (re, given) ↦ elim (Option-cases (lib.captures re original)) [
      | inl misses ↦ ground (arith, given, misses)
      | inr (groups, hit) ↦ ground (
        arith,
        given,
        hit,
        handle_flags-uri (unwrap_or rule.flags [])
            (apply_replacement lib uris fs rule.replacement groups c) c u,
      )
    ]
  ]

  apply_rule-SameRequest :
      (original : String) (rule : RewriteRule Regex) (c : RewriteContext Uri)
      → SameRequest c (apply_rule lib uris fs original rule c).0
  unfolding apply_rule
  apply_rule-SameRequest original rule c = elim (Option-cases rule.regex) [
    | inl fails ↦ ground (arith, fails)
    | inr (re, given) ↦ elim (Option-cases (lib.captures re original)) [
      | inl misses ↦ ground (arith, given, misses)
      | inr (groups, hit) ↦ ground (
        arith,
        given,
        hit,
        handle_flags-SameRequest (unwrap_or rule.flags [])
            (apply_replacement lib uris fs rule.replacement groups c) c,
      )
    ]
  ]

  run_rules-uri :
      (original : String) (rules : List (RewriteRule Regex)) (c : RewriteContext Uri) (u : Uri)
      → (run_rules lib uris fs original rules c).1 ≡ act (internal u)
      → u ≡ (run_rules lib uris fs original rules c).0.uri
  unfolding run_rules
  run_rules-uri original [] c u h = absurd (ground arith)
  run_rules-uri original (rule ∷ rules) c u h = ground (
    arith,
    apply_rule-uri original rule c u,
    run_rules-uri original rules (apply_rule lib uris fs original rule c).0 u,
  )

  run_rules-SameRequest :
      (original : String) (rules : List (RewriteRule Regex)) (c : RewriteContext Uri)
      → SameRequest c (run_rules lib uris fs original rules c).0
  unfolding run_rules
  run_rules-SameRequest original [] c = refl
  run_rules-SameRequest original (rule ∷ rules) c = ground (
    arith,
    apply_rule-SameRequest original rule c,
    run_rules-SameRequest original rules (apply_rule lib uris fs original rule c).0,
  )

  -- An action fits the context that is left with it.
  abbrev pub ActionFits : RewriteAction Uri → RewriteContext Uri → Type 0
  ActionFits (internal u) c' = u ≡ c'.uri
  ActionFits (redirect location permanent) c' = Unit
  ActionFits (proxy backend) c' = Unit
  ActionFits forbidden c' = Unit
  ActionFits gone c' = Unit

  -- An answer of `process` fits the contexts before and after it; an error fits any.
  abbrev pub Fits :
      Option (Option (RewriteAction Uri)) → RewriteContext Uri → RewriteContext Uri → Type 0
  Fits none c c' = Unit
  Fits (some none) c c' = uris.to_string c'.uri ≡ uris.to_string c.uri
  Fits (some (some a)) c c' = ActionFits a c'

  run_rules-ActionFits :
      (original : String) (rules : List (RewriteRule Regex)) (c : RewriteContext Uri)
      (a : RewriteAction Uri)
      → (run_rules lib uris fs original rules c).1 ≡ act a
      → ActionFits a (run_rules lib uris fs original rules c).0
  run_rules-ActionFits original rules c (internal u) h = run_rules-uri original rules c u h
  run_rules-ActionFits original rules c (redirect location permanent) h = tt
  run_rules-ActionFits original rules c (proxy backend) h = tt
  run_rules-ActionFits original rules c forbidden h = tt
  run_rules-ActionFits original rules c gone h = tt

  answer-Fits :
      (c c' : RewriteContext Uri) (v : Verdict Uri)
      → ((a : RewriteAction Uri) → v ≡ act a → ActionFits a c')
      → Fits (answer lib uris fs (uris.to_string c.uri) c' v) c c'
  answer-Fits c c' (act a) h = h a refl
  answer-Fits c c' failed h = tt
  answer-Fits c c' go_on h = elim (Bool-cases (uris.to_string c'.uri =? uris.to_string c.uri)) [
    | inl same ↦ rw same ((eq_iff (uris.to_string c'.uri) (uris.to_string c.uri)).0 same)
    | inr other ↦ rw other refl
  ]

  -- Whatever the rules do, `process` changes nothing of the context but its URI; an internal rewrite
  -- that it answers is to the URI that the context then has; and where it answers that there is
  -- nothing to do, the text of the URI is what it was.
  pub process-Fits :
      (rules : List (RewriteRule Regex)) (c : RewriteContext Uri)
      → SameRequest c (process lib uris fs rules c).0
        × Fits (process lib uris fs rules c).1 c (process lib uris fs rules c).0
  unfolding process
  process-Fits rules c = (
    run_rules-SameRequest (uris.to_string c.uri) rules c,
    answer-Fits c _ _ (run_rules-ActionFits (uris.to_string c.uri) rules c),
  )
