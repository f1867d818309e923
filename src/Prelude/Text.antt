-- ===== src/Prelude/Text.antt =====
-- What the code uses of Rust's `str` and the text library does not have.
use Prim.Native.Nat.{ℕ, zero, suc, ◌+◌, ◌-◌}
use Prim.Native.String.{String, [], ◌∷◌, ◌++◌, count, slice, len}
use mathlib.Core.Bool.{Bool}
use mathlib.Core.Option.{Option, none, some}
use text.Mathlib.Text.{starts_with, find?}
use miwidothttp.Prelude.Tests.{if◌then◌else◌, is_some}

-- `str::contains`.
abbrev pub contains_text : String → String → Bool
contains_text s t = is_some (find? s t)

-- `str::replace`, for a pattern that is not empty. The number counts the characters of a match that
-- are still to be passed over.
replace_skip : String → String → ℕ → String → String
replace_skip from to n [] = []
replace_skip from to (suc n) (c ∷ s) = replace_skip from to n s
replace_skip from to zero (c ∷ s) =
    let here = starts_with (c ∷ s) from in
    let rest = replace_skip from to (if here then count from - 1 else 0) s in
    if here then to ++ rest else c ∷ rest

unfoldable pub replace : String → String → String → String
unfolding replace_skip
replace s from to = replace_skip from to 0 s

-- `s.split(sep).next()`, which is `s` where `sep` is not in it.
unfoldable pub split_head : String → String → String
split_head s sep = elim (find? s sep) [ none ↦ s | some i ↦ slice s 0 i ]

-- `str::to_uppercase` on ASCII letters; every other character is left as it is. The header names
-- that it is called on are ASCII.
abbrev lowercase : String
lowercase = "abcdefghijklmnopqrstuvwxyz"

abbrev uppercase : String
uppercase = "ABCDEFGHIJKLMNOPQRSTUVWXYZ"

unfoldable pub to_uppercase : String → String
to_uppercase [] = []
to_uppercase (c ∷ s) =
    elim (find? lowercase (c ∷ [])) [ none ↦ c ∷ [] | some i ↦ slice uppercase i (i + 1) ]
    ++ to_uppercase s

-- `str::strip_prefix`.
unfoldable pub strip_prefix : String → String → Option String
strip_prefix s prefix = if starts_with s prefix then some (slice s (len prefix) (len s)) else none
