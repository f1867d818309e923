-- ===== src/Metrics/Samples.antt =====
-- metrics.rs: the samples of response times that are kept.
use miwidothttp.Prelude.{
  ℕ, ◌+◌, ◌≤◌, ◌<◌, ◌≡◌, refl, sym, ap, ◌∙◌, List, [], ◌∷◌, ◌++◌, length, length-append, take, drop,
  length-drop, take-append-drop, append_assoc, append-nil, ltb, ltb→lt, Bool-cases, inl, inr, map,
  arith, subst,
}
use miwidothttp.Metrics.{MetricsCollector, Recorded, new, record_request, push_time}
use miwidothttp.Metrics.Counters.{record_all}

-- The kept samples are the newest of all: at most 10000 of them, all while there are no more, and at
-- least 5001 from then on.
pub record Newest (all kept : List ℕ) : Type 0 where
  pub older : List ℕ
  pub suffix : older ++ kept ≡ all
  pub bounded : length kept ≤ 10000
  pub complete : length all ≤ 10000 → older ≡ []
  pub enough : 10000 < length all → 5001 ≤ length kept

older_none :
    (older kept all : List ℕ) → older ++ kept ≡ all → length older + length kept ≡ length all
older_none older kept all h = sym (length-append older kept) ∙ ap length h

push_dropped :
    (cut : ℕ) (older pushed all : List ℕ)
    → older ++ pushed ≡ all
    → (older ++ take cut pushed) ++ drop cut pushed ≡ all
push_dropped cut older pushed all h =
    rw (append_assoc older (take cut pushed) (drop cut pushed), take-append-drop cut pushed) h

push_time-Newest :
    (d : ℕ) (all kept : List ℕ) → Newest all kept → Newest (all ++ d ∷ []) (push_time d kept)
unfolding push_time
push_time-Newest d all kept n =
    let pushed = kept ++ d ∷ [] in
    let longer : length pushed ≡ length kept + 1 = length-append kept (d ∷ []) in
    let all_longer : length (all ++ d ∷ []) ≡ length all + 1 = length-append all (d ∷ []) in
    let parts = older_none n.older kept all n.suffix in
    let suffix : n.older ++ pushed ≡ all ++ d ∷ [] =
      sym (append_assoc n.older kept (d ∷ [])) ∙ ap (λ (l : List ℕ). l ++ d ∷ []) n.suffix in
    elim (Bool-cases (ltb 10000 (length pushed))) [
      | inl full ↦ rw full (
          let much = ltb→lt 10000 (length pushed) full in
          record {
            older = n.older ++ take 5000 pushed;
            suffix = push_dropped 5000 n.older pushed (all ++ d ∷ []) suffix;
            bounded = omega (arith, length-drop 5000 pushed, n.bounded, longer);
            complete = λ h. absurd (omega (arith, all_longer, parts, h, much, longer));
            enough = λ h. omega (arith, length-drop 5000 pushed, much);
          })
      | inr fits ↦ rw fits record {
        older = n.older;
        suffix = suffix;
        bounded = ground (arith, fits);
        complete = λ h. n.complete (omega (arith, all_longer, h));
        enough = λ h. elim (Bool-cases (ltb 10000 (length all))) [
          | inl more ↦ omega (arith, n.enough (ltb→lt 10000 (length all) more), longer)
          | inr before ↦ absurd (
              let none_older = n.complete (ground (arith, before)) in
              ground (arith, ap length none_older, parts, longer, all_longer, h, before, fits))
        ];
      }
    ]

record_all-Newest :
    (rs : List Recorded) (all : List ℕ) (c : MetricsCollector)
    → Newest all c.response_times
    → Newest (all ++ map (λ r. r.duration) rs) (record_all rs c).response_times
unfolding record_all record_request
record_all-Newest [] all c n = rw (append-nil all) n
record_all-Newest (r ∷ rs) all c n =
    subst (λ (l : List ℕ). Newest l (record_all rs (record_request r c)).response_times)
      (append_assoc all (r.duration ∷ []) (map (λ r. r.duration) rs))
      (record_all-Newest rs (all ++ r.duration ∷ []) (record_request r c)
        (push_time-Newest r.duration all c.response_times n))

-- After any history of requests a new collector keeps the response times of the newest ones, in their
-- order: at most 10000, all of them while there are no more than 10000, and at least 5001 from then on.
pub response_times-Newest :
    (rs : List Recorded) → Newest (map (λ r. r.duration) rs) (record_all rs new).response_times
unfolding new
response_times-Newest rs = record_all-Newest rs [] new record {
  older = [];
  suffix = refl;
  bounded = omega arith;
  complete = λ h. refl;
  enough = λ h. absurd (omega arith);
}
