-- ===== src/Prelude/Removal.antt =====
-- A list of names without one of them.
use Prim.Native.Nat.{◌<◌}
use Prim.Native.String.{String}
use mathlib.Core.Path.{◌≡◌}
use mathlib.Core.Bool.{true, false, not}
use mathlib.Core.List.{List, [], ◌∷◌}
use native.Mathlib.Omega.{arith}
use text.Mathlib.TextEquality.{eq_iff}
use miwidothttp.Prelude.Tests.{if◌then◌else◌}
use miwidothttp.Prelude.Lists.{length, retain, length-retain-le}
use miwidothttp.Prelude.Equality.{contains, ◌=?◌, string_eq}

pub contains-retain_other :
    (n m : String) (rs : List String)
    → contains (retain (λ r. not (r =? n)) rs) m ≡ (if n =? m then false else contains rs m)
contains-retain_other n m [] = ground arith
contains-retain_other n m (r ∷ rs) =
    ground (arith, eq_iff r n, eq_iff r m, eq_iff n m, contains-retain_other n m rs)

pub length-retain-lt :
    (n : String) (rs : List String)
    → contains rs n ≡ true
    → length (retain (λ r. not (r =? n)) rs) < length rs
length-retain-lt n [] h = cc
length-retain-lt n (r ∷ rs) h =
    ground (arith, length-retain-lt n rs, length-retain-le (λ (r : String). not (r =? n)) rs)
