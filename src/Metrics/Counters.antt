-- ===== src/Metrics/Counters.antt =====
-- metrics.rs: what the counters hold after a history of requests.
use miwidothttp.Prelude.{
  ℕ, ◌+◌, ◌^◌, ◌<◌, ◌≡◌, Bool, List, [], ◌∷◌, String, unwrap_or, length, leb, Eq, ◌=?◌, string_eq,
  nat_eq, if◌then◌else◌, arith,
}
use miwidothttp.Prelude.Assoc.{lookup, lookup-insert}
use miwidothttp.Metrics.{MetricsCollector, Recorded, new, record_request, count_up, add64}

-- The requests of a history, one after another.
unfoldable pub record_all : List Recorded → MetricsCollector → MetricsCollector
record_all [] c = c
record_all (r ∷ rs) c = record_all rs (record_request r c)

-- How many requests of a history pass a test, and the sum of what they give.
abbrev pub how_many : (Recorded → Bool) → List Recorded → ℕ
how_many test [] = 0
how_many test (r ∷ rs) = (if test r then 1 else 0) + how_many test rs

abbrev pub sum_of : (Recorded → ℕ) → List Recorded → ℕ
sum_of f [] = 0
sum_of f (r ∷ rs) = f r + sum_of f rs

abbrev pub count_of : {K : Type 0} ⦃e : Eq K⦄ → K → List (K × ℕ) → ℕ
count_of key counts = unwrap_or (lookup key counts) 0

count_of-count_up :
    {K : Type 0} ⦃e : Eq K⦄ (key other : K) (counts : List (K × ℕ))
    → count_of other (count_up key counts)
      ≡ (if key =? other then add64 (count_of other counts) 1 else count_of other counts)
unfolding count_up
count_of-count_up ⦃e⦄ key other counts =
    rw (lookup-insert key other (add64 (count_of key counts) 1) counts)
      (ground (arith, e.test_iff key other))

-- The counters as they stand after a history: each is the number it had and what the history adds,
-- wrapped.
pub record Counted (c : MetricsCollector) (rs : List Recorded) (d : MetricsCollector) : Type 0 where
  pub total : d.requests_total ≡ add64 c.requests_total (length rs)
  pub by_method :
      (m : String)
      → count_of m d.requests_by_method
        ≡ add64 (count_of m c.requests_by_method) (how_many (λ r. r.method =? m) rs)
  pub by_status :
      (s : ℕ)
      → count_of s d.requests_by_status
        ≡ add64 (count_of s c.requests_by_status) (how_many (λ r. r.status =? s) rs)
  pub failed : d.errors ≡ add64 c.errors (how_many (λ r. leb 500 r.status) rs)
  pub received : d.bytes_received ≡ add64 c.bytes_received (sum_of (λ r. r.bytes_in) rs)
  pub sent : d.bytes_sent ≡ add64 c.bytes_sent (sum_of (λ r. r.bytes_out) rs)

-- No counter is at 2 ^ 64.
pub record Fits (c : MetricsCollector) : Type 0 where
  pub total : c.requests_total < 2 ^ 64
  pub by_method : (m : String) → count_of m c.requests_by_method < 2 ^ 64
  pub by_status : (s : ℕ) → count_of s c.requests_by_status < 2 ^ 64
  pub failed : c.errors < 2 ^ 64
  pub received : c.bytes_received < 2 ^ 64
  pub sent : c.bytes_sent < 2 ^ 64

add64_step : (a b n : ℕ) → add64 (add64 a b) n ≡ add64 a (b + n)
add64_step a b n = omega arith

add64_fits : (a : ℕ) → a < 2 ^ 64 → a ≡ add64 a 0
add64_fits a h = omega arith

add64-lt : (a b : ℕ) → add64 a b < 2 ^ 64
add64-lt a b = omega arith

count_up_then :
    {K : Type 0} ⦃e : Eq K⦄ (key other : K) (counts : List (K × ℕ)) (n : ℕ)
    → count_of other counts < 2 ^ 64
    → add64 (count_of other (count_up key counts)) n
      ≡ add64 (count_of other counts) ((if key =? other then 1 else 0) + n)
count_up_then key other counts n h = rw (count_of-count_up key other counts) (ground arith)

count_up-lt :
    {K : Type 0} ⦃e : Eq K⦄ (key other : K) (counts : List (K × ℕ))
    → count_of other counts < 2 ^ 64
    → count_of other (count_up key counts) < 2 ^ 64
count_up-lt key other counts h = rw (count_of-count_up key other counts) (ground arith)

record_request-Fits : (r : Recorded) (c : MetricsCollector) → Fits c → Fits (record_request r c)
unfolding record_request
record_request-Fits r c f = record {
  total = add64-lt c.requests_total 1;
  by_method = λ m. count_up-lt r.method m c.requests_by_method (f.by_method m);
  by_status = λ s. count_up-lt r.status s c.requests_by_status (f.by_status s);
  failed = ground (arith, f.failed);
  received = add64-lt c.bytes_received r.bytes_in;
  sent = add64-lt c.bytes_sent r.bytes_out;
}

record_all-Counted :
    (rs : List Recorded) (c : MetricsCollector) → Fits c → Counted c rs (record_all rs c)
unfolding record_all record_request
record_all-Counted [] c f = record {
  total = add64_fits c.requests_total f.total;
  by_method = λ m. add64_fits _ (f.by_method m);
  by_status = λ s. add64_fits _ (f.by_status s);
  failed = add64_fits c.errors f.failed;
  received = add64_fits c.bytes_received f.received;
  sent = add64_fits c.bytes_sent f.sent;
}
record_all-Counted (r ∷ rs) c f =
    let ih = record_all-Counted rs (record_request r c) (record_request-Fits r c f) in
    record {
      total = rw ih.total (omega arith);
      by_method = λ m.
          rw (ih.by_method m) (count_up_then r.method m c.requests_by_method _ (f.by_method m));
      by_status = λ s.
          rw (ih.by_status s) (count_up_then r.status s c.requests_by_status _ (f.by_status s));
      failed = rw ih.failed (ground arith);
      received = rw ih.received (omega arith);
      sent = rw ih.sent (omega arith);
    }

-- After any history of requests a new collector counts, modulo 2 ^ 64, all requests, those of each
-- method, those of each status, those with a status of 500 or more, and the bytes in and out: no
-- request is lost or counted twice.
pub record_all-new : (rs : List Recorded) → Counted new rs (record_all rs new)
unfolding new lookup
record_all-new rs = record_all-Counted rs new record {
  total = omega arith;
  by_method = λ m. omega arith;
  by_status = λ s. omega arith;
  failed = omega arith;
  received = omega arith;
  sent = omega arith;
}
