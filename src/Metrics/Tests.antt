-- ===== src/Metrics/Tests.antt =====
-- metrics.rs: reports at concrete values.
use miwidothttp.Prelude.{ℕ, ◌/◌, ◌≤◌, ◌<◌, ◌≡◌, refl, some, [], ◌∷◌, arith}
use miwidothttp.Metrics.{sort, percentile, format_duration, cells, count_within}
use miwidothttp.Metrics.Quantiles.{count_below, percentile-sort}

format_run : format_duration 90061 ≡ "1d 1h 1m 1s"
unfolding format_duration
format_run = refl

format_short : format_duration 59 ≡ "59s"
unfolding format_duration
format_short = refl

-- One request of each of two methods, with different statuses: no cell of the report counts one.
cells_run :
    cells 2 (("GET", 1) ∷ ("POST", 1) ∷ []) ((200, 1) ∷ (500, 1) ∷ [])
    ≡ ("GET", 200, 0) ∷ ("GET", 500, 0) ∷ ("POST", 200, 0) ∷ ("POST", 500, 0) ∷ []
unfolding cells
cells_run = refl

percentile-sort_example :
    (v : ℕ) × (percentile (λ n. n / 2) (sort (30 ∷ 10 ∷ 20 ∷ [])) ≡ some v)
    × (count_below v (30 ∷ 10 ∷ 20 ∷ []) ≤ 1)
    × (1 < count_within v (30 ∷ 10 ∷ 20 ∷ []))
percentile-sort_example = percentile-sort (λ n. n / 2) 30 (10 ∷ 20 ∷ []) (omega arith)
