-- ===== src/Proxy/Limits.antt =====
-- proxy/mod.rs: `check_rate_limit` over all the requests of a proxy's life.
use miwidothttp.Prelude.{
  ℕ, suc, ◌+◌, ◌≡◌, refl, Bool, not, some, List, [], ◌∷◌, ltb, leb, Eq, ◌=?◌, if◌then◌else◌,
  unwrap_or, arith, min,
}
use miwidothttp.Prelude.Assoc.{lookup, insert, lookup-insert}
use miwidothttp.Proxy.{ProxyManager, ProxyConfig, new, check_rate_limit}

module _ {Ip : Type 0} ⦃e : Eq Ip⦄ where
  -- The answers to a sequence of requests, in their order.
  unfoldable pub answers : List Ip → ProxyManager Ip → List Bool
  answers [] m = []
  answers (ip ∷ ips) m = (check_rate_limit ip m).1 ∷ answers ips (check_rate_limit ip m).0

  abbrev pub occurrences : Ip → List Ip → ℕ
  occurrences ip [] = 0
  occurrences ip (x ∷ xs) = let n = occurrences ip xs in if x =? ip then suc n else n

  -- The requests of an address that come first, as many as the limit, are let through.
  unfoldable pub first_ones : ℕ → (earlier ips : List Ip) → List Bool
  first_ones limit earlier [] = []
  first_ones limit earlier (ip ∷ ips) =
      ltb (occurrences ip earlier) limit ∷ first_ones limit (ip ∷ earlier) ips

  -- The count of an address is that of its requests, up to the limit.
  Counts : ℕ → List Ip → ProxyManager Ip → Type 0
  Counts limit earlier m =
      (m.config.limits.rate_limit_per_ip ≡ some limit)
      × ((ip : Ip)
          → unwrap_or (lookup ip m.connection_count) 0 ≡ min (occurrences ip earlier) limit)

  check_rate_limit-some :
      (limit : ℕ) (ip : Ip) (m : ProxyManager Ip)
      → m.config.limits.rate_limit_per_ip ≡ some limit
      → check_rate_limit ip m ≡ (
          let count = unwrap_or (lookup ip m.connection_count) 0 in
          let after = if leb limit count then count else count + 1 in
          (
            record m { connection_count = insert ip after m.connection_count },
            not (leb limit count),
          ))
  unfolding check_rate_limit
  check_rate_limit-some limit ip m set = ground (arith, set)

  check_rate_limit-Counts :
      (limit : ℕ) (earlier : List Ip) (ip : Ip) (m : ProxyManager Ip)
      → Counts limit earlier m
      → ((check_rate_limit ip m).1 ≡ ltb (occurrences ip earlier) limit)
        × Counts limit (ip ∷ earlier) (check_rate_limit ip m).0
  unfolding Counts
  check_rate_limit-Counts limit earlier ip m (set, counts) =
      let count = unwrap_or (lookup ip m.connection_count) 0 in
      let after = if leb limit count then count else count + 1 in
      rw (check_rate_limit-some limit ip m set) (
        ground (arith, counts ip),
        (
          set,
          λ other. ground (
            arith,
            counts ip,
            counts other,
            lookup-insert ip other after m.connection_count,
            e.test_iff ip other,
          ),
        ),
      )

  answers-Counts :
      (limit : ℕ) (earlier ips : List Ip) (m : ProxyManager Ip)
      → Counts limit earlier m
      → answers ips m ≡ first_ones limit earlier ips
  unfolding answers first_ones
  answers-Counts limit earlier [] m v = refl
  answers-Counts limit earlier (ip ∷ ips) m v =
      let (answer, kept) = check_rate_limit-Counts limit earlier ip m v in
      rw (answer, answers-Counts limit (ip ∷ earlier) ips (check_rate_limit ip m).0 kept) refl

  -- Where the configuration sets a limit, a new proxy lets through, of the requests of each address
  -- over its whole life, the first ones, as many as the limit, and refuses all others; the requests
  -- of other addresses, and the time that passes, make no difference.
  pub answers-new :
      (config : ProxyConfig) (limit : ℕ)
      → config.limits.rate_limit_per_ip ≡ some limit
      → (ips : List Ip) → answers ips (new config) ≡ first_ones limit [] ips
  unfolding new lookup Counts
  answers-new config limit set ips =
      answers-Counts limit [] ips (new config) (set, λ ip. omega arith)
