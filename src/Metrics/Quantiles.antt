-- ===== src/Metrics/Quantiles.antt =====
-- metrics.rs: what the percentiles of the reports are.
use miwidothttp.Prelude.{
  ℕ, zero, suc, ◌+◌, ◌-◌, ◌≤◌, ◌<◌, ◌≡◌, refl, some, List, [], ◌∷◌, length, get_elem?, All, ltb,
  ltb→lt, Bool-cases, inl, inr, if◌then◌else◌, arith,
}
use miwidothttp.Metrics.{sort, insert_sorted, count_within, percentile}

-- How many samples are below a value.
abbrev pub count_below : ℕ → List ℕ → ℕ
count_below v [] = 0
count_below v (t ∷ ts) = (if ltb t v then 1 else 0) + count_below v ts

abbrev pub IsSorted : List ℕ → Type 0
IsSorted [] = Unit
IsSorted (t ∷ ts) = All (λ u. t ≤ u) ts × IsSorted ts

All-le : (a b : ℕ) (ts : List ℕ) → a ≤ b → All (λ u. b ≤ u) ts → All (λ u. a ≤ u) ts
All-le a b [] h all = tt
All-le a b (t ∷ ts) h all = (omega arith, All-le a b ts h all.1)

All-insert_sorted :
    (a x : ℕ) (ts : List ℕ) → a ≤ x → All (λ u. a ≤ u) ts → All (λ u. a ≤ u) (insert_sorted x ts)
unfolding insert_sorted
All-insert_sorted a x [] h all = (h, tt)
All-insert_sorted a x (t ∷ ts) h all = ground (arith, All-insert_sorted a x ts h all.1)

insert_sorted-IsSorted : (x : ℕ) (ts : List ℕ) → IsSorted ts → IsSorted (insert_sorted x ts)
unfolding insert_sorted
insert_sorted-IsSorted x [] s = (tt, tt)
insert_sorted-IsSorted x (t ∷ ts) s = elim (Bool-cases (ltb x t)) [
  | inl less ↦
      let below = ltb→lt x t less in rw less ((omega arith, All-le x t ts (omega arith) s.0), s)
  | inr more ↦
      rw more (All-insert_sorted t x ts (ground (arith, more)) s.0, insert_sorted-IsSorted x ts s.1)
]

sort-IsSorted : (ts : List ℕ) → IsSorted (sort ts)
unfolding sort
sort-IsSorted [] = tt
sort-IsSorted (t ∷ ts) = insert_sorted-IsSorted t (sort ts) (sort-IsSorted ts)

module _ (v : ℕ) where
  count_below-insert_sorted :
      (x : ℕ) (ts : List ℕ) → count_below v (insert_sorted x ts) ≡ count_below v (x ∷ ts)
  unfolding insert_sorted
  count_below-insert_sorted x [] = refl
  count_below-insert_sorted x (t ∷ ts) = ground (arith, count_below-insert_sorted x ts)

  count_below-sort : (ts : List ℕ) → count_below v (sort ts) ≡ count_below v ts
  unfolding sort
  count_below-sort [] = refl
  count_below-sort (t ∷ ts) =
      omega (arith, count_below-insert_sorted t (sort ts), count_below-sort ts)

  count_within-insert_sorted :
      (x : ℕ) (ts : List ℕ) → count_within v (insert_sorted x ts) ≡ count_within v (x ∷ ts)
  unfolding insert_sorted count_within
  count_within-insert_sorted x [] = refl
  count_within-insert_sorted x (t ∷ ts) = ground (arith, count_within-insert_sorted x ts)

  pub count_within-sort : (ts : List ℕ) → count_within v (sort ts) ≡ count_within v ts
  unfolding sort count_within
  count_within-sort [] = refl
  count_within-sort (t ∷ ts) =
      ground (arith, count_within-insert_sorted t (sort ts), count_within-sort ts)

length-insert_sorted : (x : ℕ) (ts : List ℕ) → length (insert_sorted x ts) ≡ suc (length ts)
unfolding insert_sorted
length-insert_sorted x [] = refl
length-insert_sorted x (t ∷ ts) = ground (arith, length-insert_sorted x ts)

pub length-sort : (ts : List ℕ) → length (sort ts) ≡ length ts
unfolding sort
length-sort [] = refl
length-sort (t ∷ ts) = omega (arith, length-insert_sorted t (sort ts), length-sort ts)

none_below : (v : ℕ) (ts : List ℕ) → All (λ u. v ≤ u) ts → count_below v ts ≡ 0
none_below v [] all = refl
none_below v (t ∷ ts) all = ground (arith, none_below v ts all.1)

-- The i-th of a sorted list: at most i samples are below it, and more than i are not above it.
sorted_rank :
    (ts : List ℕ) (i : ℕ)
    → IsSorted ts
    → i < length ts
    → (v : ℕ) × (get_elem? ts i ≡ some v) × (count_below v ts ≤ i) × (i < count_within v ts)
unfolding count_within
sorted_rank [] i s h = absurd (omega arith)
sorted_rank (t ∷ ts) zero s h = (t, refl, ground (arith, none_below t ts s.0), ground arith)
sorted_rank (t ∷ ts) (suc i) s h =
    let (v, found, below, within) = sorted_rank ts i s.1 (omega arith) in
    let least = least_of ts i v s.0 found in
    (v, found, ground (arith, below), ground (arith, within, least))
  where
    least_of : (us : List ℕ) (j v : ℕ) → All (λ u. t ≤ u) us → get_elem? us j ≡ some v → t ≤ v
    least_of [] j v all f = cc
    least_of (u ∷ us) zero v all f = ground (arith, all.0)
    least_of (u ∷ us) (suc j) v all f = least_of us j v all.1 f

percentile_at :
    (part : ℕ → ℕ) (us : List ℕ) (n v : ℕ)
    → length us ≡ suc n
    → get_elem? us (part n) ≡ some v
    → percentile part us ≡ some v
unfolding percentile
percentile_at part [] n v l f = absurd (omega arith)
percentile_at part (u ∷ us) n v l f = let e : suc (length us) - 1 ≡ n = omega arith in rw e f

-- Let an index that is scaled not rise. For any samples but none, a percentile of the sorted samples
-- is the order statistic of that index: at most so many samples are below it, and more than so many
-- are not above it; the index is never out of range.
pub percentile-sort :
    (part : ℕ → ℕ) (t : ℕ) (ts : List ℕ)
    → part (length ts) ≤ length ts
    → (v : ℕ) × (percentile part (sort (t ∷ ts)) ≡ some v)
      × (count_below v (t ∷ ts) ≤ part (length ts))
      × (part (length ts) < count_within v (t ∷ ts))
percentile-sort part t ts h =
    let same = length-sort (t ∷ ts) in
    let (v, found, below, within) =
      sorted_rank (sort (t ∷ ts)) (part (length ts)) (sort-IsSorted (t ∷ ts))
        (omega (arith, same, h)) in
    (
      v,
      percentile_at part (sort (t ∷ ts)) (length ts) v same found,
      omega (arith, below, count_below-sort v (t ∷ ts)),
      omega (arith, within, count_within-sort v (t ∷ ts)),
    )
