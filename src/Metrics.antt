-- ===== src/Metrics.antt =====
-- metrics.rs (src/metrics.rs): `MetricsCollector`. Durations are whole nanoseconds, and `uptime` is
-- the argument of the reports. A counter of 64 bits wraps. The parts of `record_request` take a lock
-- or an atomic each; they change different counters, and are one transition here. Of the reports,
-- the numbers are given: what is text around them, the averages and rates in floating point, and the
-- memory and load of the machine are left out.
use miwidothttp.Prelude.{
  ℕ, zero, suc, ◌+◌, ◌-◌, ◌*◌, ◌/◌, ◌%◌, ◌^◌, Bool, true, false, Option, none, some, List, [], ◌∷◌,
  ◌++◌, String, append_text, unwrap_or, length, drop, get_elem?, map, ltb, leb, ◌==◌, Eq, string_eq,
  nat_eq, is_empty, if◌then◌else◌,
}
use miwidothttp.Prelude.Assoc.{lookup, insert}
use miwidothttp.Rewrite.{decimal_text}
pub mod Counters
pub mod Samples
pub mod Quantiles
mod Tests

pub record MetricsCollector : Type 0 where
  pub requests_total : ℕ
  pub requests_by_method : List (String × ℕ)
  pub requests_by_status : List (ℕ × ℕ)
  pub response_times : List ℕ
  pub active_connections : ℕ
  pub bytes_sent : ℕ
  pub bytes_received : ℕ
  pub errors : ℕ

-- What `record_request` is told of a request.
pub record Recorded : Type 0 where
  pub method : String
  pub status : ℕ
  pub duration : ℕ
  pub bytes_in : ℕ
  pub bytes_out : ℕ

unfoldable pub new : MetricsCollector
new = record {
  requests_total = 0;
  requests_by_method = [];
  requests_by_status = [];
  response_times = [];
  active_connections = 0;
  bytes_sent = 0;
  bytes_received = 0;
  errors = 0;
}

-- `fetch_add` on 64 bits.
abbrev pub add64 : ℕ → ℕ → ℕ
add64 a b = (a + b) % 2 ^ 64

-- `*counts.entry(key).or_insert(0) += 1`.
unfoldable pub count_up : {K : Type 0} ⦃e : Eq K⦄ → K → List (K × ℕ) → List (K × ℕ)
count_up key counts = insert key (add64 (unwrap_or (lookup key counts) 0) 1) counts

-- More than 10000 samples lose the first 5000.
unfoldable pub push_time : ℕ → List ℕ → List ℕ
push_time duration times =
    let pushed = times ++ duration ∷ [] in
    if ltb 10000 (length pushed) then drop 5000 pushed else pushed

unfoldable pub record_request : Recorded → MetricsCollector → MetricsCollector
unfolding count_up push_time
record_request r c = record {
  requests_total = add64 c.requests_total 1;
  requests_by_method = count_up r.method c.requests_by_method;
  requests_by_status = count_up r.status c.requests_by_status;
  response_times = push_time r.duration c.response_times;
  active_connections = c.active_connections;
  bytes_sent = add64 c.bytes_sent r.bytes_out;
  bytes_received = add64 c.bytes_received r.bytes_in;
  errors = if leb 500 r.status then add64 c.errors 1 else c.errors;
}

unfoldable pub increment_connections : MetricsCollector → MetricsCollector
increment_connections c = record c { active_connections = add64 c.active_connections 1 }

-- `fetch_sub`, which goes round below 0.
unfoldable pub decrement_connections : MetricsCollector → MetricsCollector
decrement_connections c = record c {
  active_connections = (c.active_connections + 2 ^ 64 - 1) % 2 ^ 64;
}

-- The samples of `http_requests_total`: one for each method with each status that was counted.
abbrev pub at_least_one : ℕ → ℕ
at_least_one n = if n == 0 then 1 else n

unfoldable pub cells_of : (total count : ℕ) → String → List (ℕ × ℕ) → List (String × ℕ × ℕ)
cells_of total count method [] = []
cells_of total count method ((status, status_count) ∷ rest) =
    let others = cells_of total count method rest in
    if ltb 0 status_count
    then (method, status, count * status_count / at_least_one total) ∷ others
    else others

unfoldable pub cells : (total : ℕ) → List (String × ℕ) → List (ℕ × ℕ) → List (String × ℕ × ℕ)
unfolding cells_of
cells total [] statuses = []
cells total ((method, count) ∷ rest) statuses =
    cells_of total count method statuses ++ cells total rest statuses

-- `sort_by` on the samples.
unfoldable pub insert_sorted : ℕ → List ℕ → List ℕ
insert_sorted x [] = x ∷ []
insert_sorted x (y ∷ ys) =
    let rest = insert_sorted x ys in if ltb x y then x ∷ (y ∷ ys) else y ∷ rest

unfoldable pub sort : List ℕ → List ℕ
unfolding insert_sorted
sort [] = []
sort (x ∷ xs) = insert_sorted x (sort xs)

-- The upper bounds of the histogram, 0.005 s to 10 s, in nanoseconds.
abbrev pub buckets : List ℕ
buckets =
    5000000 ∷ 10000000 ∷ 25000000 ∷ 50000000 ∷ 100000000 ∷ 250000000 ∷ 500000000 ∷ 1000000000
    ∷ 2500000000 ∷ 5000000000 ∷ 10000000000 ∷ []

unfoldable pub count_within : ℕ → List ℕ → ℕ
count_within bucket [] = 0
count_within bucket (t ∷ ts) =
    if leb t bucket then suc (count_within bucket ts) else count_within bucket ts

abbrev pub sum : List ℕ → ℕ
sum [] = 0
sum (t ∷ ts) = t + sum ts

-- `percentile`: `part n` is `(n as f64 * p) as usize`. An index out of range is a panic, `none`.
unfoldable pub percentile : (part : ℕ → ℕ) → List ℕ → Option ℕ
percentile part [] = some 0
percentile part (t ∷ ts) = get_elem? (t ∷ ts) (part (length (t ∷ ts) - 1))

pub record Histogram : Type 0 where
  pub counts : List (ℕ × ℕ)
  pub total_time : ℕ
  pub count : ℕ
  pub p50 : Option ℕ
  pub p95 : Option ℕ
  pub p99 : Option ℕ

-- How a number is scaled for each of the three quantiles.
pub record Scaling : Type 0 where
  pub half : ℕ → ℕ
  pub most : ℕ → ℕ
  pub nearly_all : ℕ → ℕ

pub record Prometheus : Type 0 where
  pub requests : List (String × ℕ × ℕ)
  pub latency : Option Histogram
  pub active : ℕ
  pub received : ℕ
  pub sent : ℕ
  pub errors : ℕ
  pub uptime : ℕ

unfoldable pub histogram : Scaling → List ℕ → Histogram
unfolding sort count_within percentile
histogram scale times =
    let sorted_times = sort times in
    record {
      counts = map (λ bucket. (bucket, count_within bucket sorted_times)) buckets;
      total_time = sum sorted_times;
      count = length sorted_times;
      p50 = percentile scale.half sorted_times;
      p95 = percentile scale.most sorted_times;
      p99 = percentile scale.nearly_all sorted_times;
    }

unfoldable pub get_prometheus_metrics : Scaling → (uptime : ℕ) → MetricsCollector → Prometheus
unfolding cells histogram
get_prometheus_metrics scale uptime c = record {
  requests = cells c.requests_total c.requests_by_method c.requests_by_status;
  latency = if is_empty c.response_times then none else some (histogram scale c.response_times);
  active = c.active_connections;
  received = c.bytes_received;
  sent = c.bytes_sent;
  errors = c.errors;
  uptime = uptime;
}

-- A rate of the JSON report: per second of the uptime, whole seconds of it.
unfoldable pub rate : (total seconds : ℕ) → ℕ
rate total seconds = if ltb 0 seconds then total / seconds else 0

-- `format_duration`, on the duration's whole seconds.
unfoldable pub format_duration : ℕ → String
unfolding decimal_text
format_duration seconds =
    let days = seconds / 86400 in
    let hours = seconds % 86400 / 3600 in
    let minutes = seconds % 3600 / 60 in
    let secs = append_text (decimal_text (seconds % 60)) "s" in
    let with_minutes = append_text (decimal_text minutes) (append_text "m " secs) in
    let with_hours = append_text (decimal_text hours) (append_text "h " with_minutes) in
    if ltb 0 days
    then append_text (decimal_text days) (append_text "d " with_hours)
    else (if ltb 0 hours then with_hours else if ltb 0 minutes then with_minutes else secs)
