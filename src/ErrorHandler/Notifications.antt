-- ===== src/ErrorHandler/Notifications.antt =====
-- error.rs: which errors are notified.
use miwidothttp.Prelude.{
  ℕ, ◌+◌, ◌%◌, ◌^◌, ◌≤◌, ◌<◌, ◌≡◌, refl, sym, subst, ap, Bool, true, false, String, Option, none,
  some, List, [], ◌∷◌, leb, leb→le, Bool-cases, inl, inr, ◌=?◌, nat_eq, ==_iff, if◌then◌else◌, All,
  arith,
}
use miwidothttp.Prelude.Assoc.{lookup, insert, lookup-insert}
use miwidothttp.Metrics.Counters.{count_of}
use miwidothttp.ErrorHandler.{
  AppError, ErrorHandler, NotificationConfig, ErrorConfig, Texts, track_error, new,
}

-- The errors of a history, with the notifications: the status and the count of each.
unfoldable pub track_all : List AppError → ErrorHandler → ErrorHandler × List (ℕ × ℕ)
track_all [] h = (h, [])
track_all (error ∷ errors) h =
    let (h', notified) = track_error error h in
    let (h'', later) = track_all errors h' in
    (h'', elim notified [ none ↦ later | some count ↦ (error.status, count) ∷ later ])

-- How many errors have a status, and how many of a status were reported.
abbrev pub how_many : ℕ → List AppError → ℕ
how_many status [] = 0
how_many status (error ∷ errors) =
    (if error.status =? status then 1 else 0) + how_many status errors

abbrev pub reported : ℕ → List (ℕ × ℕ) → ℕ
reported status [] = 0
reported status ((other, count) ∷ rest) =
    (if other =? status then count else 0) + reported status rest

track_all-cons :
    (error : AppError) (errors : List AppError) (h : ErrorHandler) {h' : ErrorHandler}
    {notified : Option ℕ}
    → track_error error h ≡ (h', notified)
    → track_all (error ∷ errors) h ≡ (
      (track_all errors h').0,
      elim notified as (λ o. List (ℕ × ℕ)) [
        | none ↦ (track_all errors h').1
        | some count ↦ (error.status, count) ∷ (track_all errors h').1
      ],
    )
unfolding track_all
track_all-cons error errors h e =
    ap
      (λ r. (
        (track_all errors r.0).0,
        elim r.1 as (λ o. List (ℕ × ℕ)) [
          | none ↦ (track_all errors r.0).1
          | some count ↦ (error.status, count) ∷ (track_all errors r.0).1
        ],
      ))
      e

module _ (notify : NotificationConfig) (positive : 1 ≤ notify.threshold)
    (fits : notify.threshold < 2 ^ 32) where
  -- No count has reached the threshold.
  pub record IsBelow (h : ErrorHandler) : Type 0 where
    pub notifies : h.config.notify_errors ≡ some notify
    pub below : (status : ℕ) → count_of status h.error_counts < notify.threshold

  counts_up :
      (h : ErrorHandler) (status : ℕ)
      → IsBelow h
      → (count_of status h.error_counts + 1) % 2 ^ 32 ≡ count_of status h.error_counts + 1
  counts_up h status b = omega (arith, b.below status)

  -- An error that does not reach the threshold is counted.
  track_error-below :
      (error : AppError) (h : ErrorHandler)
      → IsBelow h
      → leb notify.threshold (count_of error.status h.error_counts + 1) ≡ false
      → track_error error h ≡ (
        record h {
          error_counts =
              insert error.status (count_of error.status h.error_counts + 1) h.error_counts;
        },
        none,
      )
  unfolding track_error
  track_error-below error h b less = ground (arith, b.notifies, counts_up h error.status b, less)

  -- One that reaches it is reported, with the count, which falls to 0.
  track_error-reached :
      (error : AppError) (h : ErrorHandler)
      → IsBelow h
      → leb notify.threshold (count_of error.status h.error_counts + 1) ≡ true
      → track_error error h ≡ (
        record h { error_counts = insert error.status 0 h.error_counts },
        some (count_of error.status h.error_counts + 1),
      )
  unfolding track_error
  track_error-reached error h b enough =
      ground (arith, b.notifies, counts_up h error.status b, enough)

  set_count :
      (status : ℕ) (n : ℕ) (h : ErrorHandler)
      → n < notify.threshold
      → IsBelow h
      → IsBelow (record h { error_counts = insert status n h.error_counts })
  set_count status n h less b = record {
    notifies = b.notifies;
    below = λ other. ground (
      arith,
      lookup-insert status other n h.error_counts,
      less,
      b.below other,
      ==_iff status other,
    );
  }

  count_of-set :
      (status other n : ℕ) (h : ErrorHandler)
      → count_of other (insert status n h.error_counts)
        ≡ (if status =? other then n else count_of other h.error_counts)
  count_of-set status other n h = ground (arith, lookup-insert status other n h.error_counts)

  -- What a history of errors has done to the counts, and what it has reported.
  pub record IsTracked (errors : List AppError) (h h' : ErrorHandler) (log : List (ℕ × ℕ))
      : Type 0 where
    pub still_below : IsBelow h'
    pub accounted :
        (status : ℕ)
        → reported status log + count_of status h'.error_counts
          ≡ count_of status h.error_counts + how_many status errors
    pub at_threshold : All (λ n. n.1 ≡ notify.threshold) log

  nothing-IsTracked : (h : ErrorHandler) → IsBelow h → IsTracked [] h h []
  nothing-IsTracked h b = record {
    still_below = b;
    accounted = λ status. omega arith;
    at_threshold = tt;
  }

  track_all-IsTracked :
      (errors : List AppError) (h : ErrorHandler)
      → IsBelow h
      → IsTracked errors h (track_all errors h).0 (track_all errors h).1
  track_all-IsTracked [] h b = unfold track_all in nothing-IsTracked h b
  track_all-IsTracked (error ∷ errors) h b =
      let count = count_of error.status h.error_counts in
      let set = λ (n : ℕ). record h { error_counts = insert error.status n h.error_counts } in
      elim (Bool-cases (leb notify.threshold (count + 1))) [
        | inl enough ↦
            let ih =
              track_all-IsTracked errors (set 0)
                (set_count error.status 0 h (omega (arith, positive)) b) in
            subst (λ r. IsTracked (error ∷ errors) h r.0 r.1)
              (sym (track_all-cons error errors h (track_error-reached error h b enough)))
              record {
                still_below = ih.still_below;
                accounted = λ status. ground (
                  arith,
                  ih.accounted status,
                  count_of-set error.status status 0 h,
                  ==_iff error.status status,
                );
                at_threshold = (
                  omega (arith, leb→le notify.threshold (count + 1) enough, b.below error.status),
                  ih.at_threshold,
                );
              }
        | inr less ↦
            let ih =
              track_all-IsTracked errors (set (count + 1))
                (set_count error.status (count + 1) h (ground (arith, less)) b) in
            subst (λ r. IsTracked (error ∷ errors) h r.0 r.1)
              (sym (track_all-cons error errors h (track_error-below error h b less)))
              record {
                still_below = ih.still_below;
                accounted = λ status. ground (
                  arith,
                  ih.accounted status,
                  count_of-set error.status status (count + 1) h,
                  ==_iff error.status status,
                );
                at_threshold = ih.at_threshold;
              }
      ]

new_lem :
    (texts : Texts) (exists : String → String → Bool) (read : String → String → Option String)
    (config : ErrorConfig) (h : ErrorHandler)
    → new texts exists read config ≡ some h
    → (h.config ≡ config) × (h.error_counts ≡ [])
unfolding new
new_lem texts exists read config h made = ground arith

lookup_nothing : (status : ℕ) (counts : List (ℕ × ℕ)) → counts ≡ [] → count_of status counts ≡ 0
unfolding lookup
lookup_nothing status [] h = refl
lookup_nothing status (c ∷ counts) h = cc

-- Let a new handler notify at a threshold that is positive and fits 32 bits. After any errors, those of
-- each status are the ones that were reported, which every notification does for as many as the
-- threshold says, and the ones still counted, which are fewer: no error is lost or reported twice.
pub track_all-new :
    (texts : Texts) (exists : String → String → Bool) (read : String → String → Option String)
    (config : ErrorConfig) (notify : NotificationConfig) (h : ErrorHandler) (errors : List AppError)
    → new texts exists read config ≡ some h
    → config.notify_errors ≡ some notify
    → 1 ≤ notify.threshold
    → notify.threshold < 2 ^ 32
    → ((status : ℕ)
        → (reported status (track_all errors h).1
              + count_of status (track_all errors h).0.error_counts
            ≡ how_many status errors)
          × (count_of status (track_all errors h).0.error_counts < notify.threshold))
      × All (λ n. n.1 ≡ notify.threshold) (track_all errors h).1
track_all-new texts exists read config notify h errors made notifies positive fits =
    let (same, none_counted) = new_lem texts exists read config h made in
    let zero_count : (status : ℕ) → count_of status h.error_counts ≡ 0 =
      λ status. lookup_nothing status h.error_counts none_counted in
    let t = track_all-IsTracked notify positive fits errors h record {
      notifies = rw same notifies;
      below = λ status. omega (arith, zero_count status, positive);
    } in
    (
      λ status. (omega (arith, t.accounted status, zero_count status), t.still_below.below status),
      t.at_threshold,
    )
