-- ===== src/RateLimit/Window.antt =====
-- security.rs: the limiter against a log of all requests that it has let through.
use miwidothttp.Prelude.{
  ℕ, ◌+◌, ◌≤◌, ◌<◌, ◌≡◌, refl, inl, inr, Bool, true, ◌&&◌, List, [], ◌∷◌, ◌++◌, length, retain,
  retain-append, length-append, leb, ltb, Eq, ◌=?◌, if◌then◌else◌, arith, Bool-cases, append_assoc,
  append-nil, ◌∙◌, ap, sym,
}
use miwidothttp.Prelude.Assoc.{lookup, lookup-insert}
use miwidothttp.RateLimit.{
  LimitConfig, RateLimiter, is_recent, timestamps, check_rate_limit, check_all, admitted, new,
}

retain-retain :
    (p q : ℕ → Bool) (xs : List ℕ)
    → ((x : ℕ) → p x ≡ true → q x ≡ true)
    → retain p (retain q xs) ≡ retain p xs
retain-retain p q [] h = refl
retain-retain p q (x ∷ xs) h = ground (arith, h x, retain-retain p q xs h)

is_recent_later :
    (w now later t : ℕ) → now ≤ later → is_recent w later t ≡ true → is_recent w now t ≡ true
is_recent_later w now later t h r = ground arith

module _ {Ip : Type 0} ⦃e : Eq Ip⦄ where
  -- The specification keeps every request let through, oldest first, and reads off the times of
  -- one address.
  pub times : Ip → List (Ip × ℕ) → List ℕ
  times ip [] = []
  times ip ((j, t) ∷ log) = if j =? ip then t ∷ times ip log else times ip log

  -- A request is let through while fewer than `rate_limit_requests` of the same address were let
  -- through in the window that ends now.
  pub spec_admits : LimitConfig → List (Ip × ℕ) → Ip → ℕ → Bool
  spec_admits c log ip now =
      if c.enable_rate_limiting
      then ltb (length (retain (is_recent c.rate_limit_window now) (times ip log)))
          c.rate_limit_requests
      else true

  pub spec_all : LimitConfig → List (Ip × ℕ) → List (Ip × ℕ) → List Bool
  spec_all c log [] = []
  spec_all c log ((ip, now) ∷ rs) =
      let ok = spec_admits c log ip now in
      ok ∷ spec_all c (if ok then log ++ (ip, now) ∷ [] else log) rs

  -- The times do not go back, from `start` on.
  abbrev pub Ordered : ℕ → List (Ip × ℕ) → Type 0
  Ordered start [] = Unit {0}
  Ordered start ((ip, now) ∷ rs) = (start ≤ now) × Ordered now rs

  times-append :
      (ip : Ip) (xs ys : List (Ip × ℕ)) → times ip (xs ++ ys) ≡ times ip xs ++ times ip ys
  unfolding times
  times-append ip [] ys = refl
  times-append ip ((j, t) ∷ xs) ys = ground (arith, times-append ip xs ys)

  -- From `start` on the limiter's timestamps and the log hold the same recent requests.
  abbrev SameRecent : ℕ → ℕ → RateLimiter Ip → List (Ip × ℕ) → Type 0
  SameRecent w start l log =
      (ip : Ip) (now : ℕ)
      → start ≤ now
      → retain (is_recent w now) (timestamps ip l) ≡ retain (is_recent w now) (times ip log)

  config_kept :
      (ip : Ip) (now : ℕ) (l : RateLimiter Ip) → (check_rate_limit ip now l).0.config ≡ l.config
  unfolding check_rate_limit
  config_kept ip now l = ground arith

  -- The timestamps after a check: those of the address, cut to the window and with `now` if the
  -- request is let through; those of another address as before.
  timestamps-check :
      (ip j : Ip) (now : ℕ) (l : RateLimiter Ip)
      → l.config.enable_rate_limiting ≡ true
      → let kept = retain (is_recent l.config.rate_limit_window now) (timestamps ip l) in
        let (l', ok) = check_rate_limit ip now l in
        (ok ≡ ltb (length kept) l.config.rate_limit_requests)
        × (timestamps j l'
            ≡ (if ip =? j then (if ok then kept ++ now ∷ [] else kept) else timestamps j l))
  unfolding check_rate_limit timestamps
  timestamps-check ip j now l on = ground (
    arith,
    lookup-insert ip j (retain (is_recent l.config.rate_limit_window now) (timestamps ip l))
        l.requests,
    lookup-insert ip j
        (retain (is_recent l.config.rate_limit_window now) (timestamps ip l) ++ now ∷ [])
        l.requests,
  )

  -- One check answers as the specification does.
  check-spec :
      (c : LimitConfig) (start now : ℕ) (ip : Ip) (l : RateLimiter Ip) (log : List (Ip × ℕ))
      → l.config ≡ c
      → c.enable_rate_limiting ≡ true
      → start ≤ now
      → SameRecent c.rate_limit_window start l log
      → (check_rate_limit ip now l).1 ≡ spec_admits c log ip now
  unfolding spec_admits
  check-spec c start now ip l log e on h same =
      ground (arith, timestamps-check ip ip now l, same ip now h)

  -- ... and keeps the two in step.
  check-SameRecent :
      (c : LimitConfig) (start now : ℕ) (ip : Ip) (l : RateLimiter Ip) (log : List (Ip × ℕ))
      → l.config ≡ c
      → c.enable_rate_limiting ≡ true
      → start ≤ now
      → SameRecent c.rate_limit_window start l log
      → SameRecent c.rate_limit_window now
          (check_rate_limit ip now l).0
          (if (check_rate_limit ip now l).1 then log ++ (ip, now) ∷ [] else log)
  unfolding times
  check-SameRecent c start now ip l log q on h same j later h' = ground (
    arith,
    timestamps-check ip j now l,
    same ip later (omega arith),
    same j later (omega arith),
    e.test_iff ip j,
    retain-retain (is_recent c.rate_limit_window later) (is_recent c.rate_limit_window now)
        (timestamps ip l) (λ (t : ℕ). is_recent_later c.rate_limit_window now later t h'),
    retain-append (is_recent c.rate_limit_window later)
        (retain (is_recent c.rate_limit_window now) (timestamps ip l)) (now ∷ []),
    retain-append (is_recent c.rate_limit_window later) (times ip log) (now ∷ []),
    times-append j log ((ip, now) ∷ []),
    append-nil (times j log),
  )

  check_all-spec :
      (c : LimitConfig) (start : ℕ) (l : RateLimiter Ip) (log rs : List (Ip × ℕ))
      → l.config ≡ c
      → c.enable_rate_limiting ≡ true
      → Ordered start rs
      → SameRecent c.rate_limit_window start l log
      → check_all l rs ≡ spec_all c log rs
  unfolding check_all spec_all
  check_all-spec c start l log [] q on h same = refl
  check_all-spec c start l log ((ip, now) ∷ rs) q on h same =
      let answer = check-spec c start now ip l log q on h.0 same in
      let rest =
        check_all-spec c now (check_rate_limit ip now l).0
          (if (check_rate_limit ip now l).1 then log ++ (ip, now) ∷ [] else log) rs
          (config_kept ip now l ∙ q) on h.1 (check-SameRecent c start now ip l log q on h.0 same) in
      rw (← answer) (ap (◌∷◌ (check_rate_limit ip now l).1) rest)

  -- Over requests of any addresses in the order of their times, an enabled limiter, whose lists
  -- hold only part of what it has let through, answers each as the specification that keeps all.
  pub limiter_refines :
      (c : LimitConfig) (rs : List (Ip × ℕ))
      → c.enable_rate_limiting ≡ true
      → Ordered 0 rs
      → check_all (new c) rs ≡ spec_all c [] rs
  limiter_refines c rs on h =
      check_all-spec c 0 (new c) [] rs (unfold new in refl) on h
        (λ ip now _. unfold new timestamps lookup times in refl)

-- A time lies in the window of length `w` that begins at `s`.
abbrev pub is_within : ℕ → ℕ → ℕ → Bool
is_within s w t = leb s t && ltb t (s + w)

length-retain_mono :
    (p q : ℕ → Bool) (xs : List ℕ)
    → ((x : ℕ) → p x ≡ true → q x ≡ true)
    → length (retain p xs) ≤ length (retain q xs)
length-retain_mono p q [] h = omega arith
length-retain_mono p q (x ∷ xs) h = ground (arith, h x, length-retain_mono p q xs h)

is_within_recent : (s w now t : ℕ) → now < s + w → is_within s w t ≡ true → is_recent w now t ≡ true
is_within_recent s w now t h r = ground arith

module _ {Ip : Type 0} ⦃e : Eq Ip⦄ where
  abbrev Bounded : LimitConfig → List (Ip × ℕ) → Type 0
  Bounded c log =
      (ip : Ip) (s : ℕ)
      → length (retain (is_within s c.rate_limit_window) (times ip log)) ≤ c.rate_limit_requests

  spec-Bounded :
      (c : LimitConfig) (log : List (Ip × ℕ)) (ip : Ip) (now : ℕ)
      → c.enable_rate_limiting ≡ true
      → spec_admits c log ip now ≡ true
      → Bounded c log
      → Bounded c (log ++ (ip, now) ∷ [])
  unfolding spec_admits times
  spec-Bounded c log ip now on ok b j s = elim (Bool-cases (is_within s c.rate_limit_window now)) [
    | inl inside ↦ rw (count j s) (
        ground (
          arith,
          b j s,
          e.test_iff ip j,
          length-retain_mono (is_within s c.rate_limit_window) (is_recent c.rate_limit_window now)
              (times ip log)
              (λ (t : ℕ). is_within_recent s c.rate_limit_window now t (ground arith)),
        ))
    | inr outside ↦ rw (count j s) (ground (arith, b j s))
  ]
    where
      count :
          (j : Ip) (s : ℕ)
          → length (retain (is_within s c.rate_limit_window) (times j (log ++ (ip, now) ∷ [])))
            ≡ length (retain (is_within s c.rate_limit_window) (times j log))
              + length (retain (is_within s c.rate_limit_window) (times j ((ip, now) ∷ [])))
      count j s = rw (
        times-append j log ((ip, now) ∷ []),
        retain-append (is_within s c.rate_limit_window) (times j log),
        length-append (retain (is_within s c.rate_limit_window) (times j log)),
      )

  admitted-Bounded :
      (c : LimitConfig) (start : ℕ) (l : RateLimiter Ip) (log rs : List (Ip × ℕ))
      → l.config ≡ c
      → c.enable_rate_limiting ≡ true
      → Ordered start rs
      → SameRecent c.rate_limit_window start l log
      → Bounded c log
      → Bounded c (log ++ admitted l rs)
  unfolding admitted
  admitted-Bounded c start l log [] q on h same b = rw append-nil b
  admitted-Bounded c start l log ((ip, now) ∷ rs) q on h same b =
      let answer = check-spec c start now ip l log q on h.0 same in
      let kept = config_kept ip now l ∙ q in
      let same' = check-SameRecent c start now ip l log q on h.0 same in
      elim (Bool-cases (check_rate_limit ip now l).1) [
        | inl ok ↦ rw ok (
            rw (← append_assoc log ((ip, now) ∷ []) (admitted (check_rate_limit ip now l).0 rs)) (
              admitted-Bounded c now (check_rate_limit ip now l).0 (log ++ (ip, now) ∷ []) rs kept
                on h.1 (rw ok at same') (spec-Bounded c log ip now on (sym answer ∙ ok) b)))
        | inr refused ↦ rw refused (
            admitted-Bounded c now (check_rate_limit ip now l).0 log rs kept on h.1
              (rw refused at same') b)
      ]

  -- Over requests in the order of their times, no address has more than `rate_limit_requests`
  -- requests let through in any window of the configured length, wherever it begins.
  pub window_bound :
      (c : LimitConfig) (rs : List (Ip × ℕ)) (ip : Ip) (s : ℕ)
      → c.enable_rate_limiting ≡ true
      → Ordered 0 rs
      → length (retain (is_within s c.rate_limit_window) (times ip (admitted (new c) rs)))
        ≤ c.rate_limit_requests
  window_bound c rs ip s on h =
      admitted-Bounded c 0 (new c) [] rs (unfold new in refl) on h
        (λ ip now _. unfold new timestamps lookup times in refl)
        (λ ip s. unfold times in omega arith) ip s
