-- ===== src/Proxy/Headers.antt =====
-- proxy/mod.rs: the headers of a request that `add_proxy_headers` leaves.
use miwidothttp.Prelude.{
  ◌≡◌, refl, ap, ◌∙◌, Bool, true, false, not, ◌&&◌, ◌||◌, Option, none, some, List, [], ◌∷◌, String,
  ◌=?◌, string_eq, if◌then◌else◌, Bool-cases, Option-cases, is_some, unwrap_or, inl, inr, arith,
}
use miwidothttp.Prelude.Assoc.{lookup, remove, lookup-remove}
use miwidothttp.Proxy.{
  HeaderMap, HeaderConfig, set_header, set_if, add_own, apply_lists, forwarded_value, add_custom,
  remove_unwanted, add_proxy_headers,
}

lookup-set_header :
    (name value k : String) (headers : HeaderMap)
    → lookup k (set_header name value headers)
      ≡ (if name =? k then some value else lookup k headers)
unfolding set_header lookup
lookup-set_header name value k headers = ground (arith, lookup-remove name k headers)

module _ (header_name : String → Option String) where
  -- Whether a name that is to be removed reads as the given one.
  abbrev pub is_unwanted : List String → String → Bool
  is_unwanted [] k = false
  is_unwanted (h ∷ rest) k =
      elim (header_name h) [ none ↦ false | some name ↦ name =? k ] || is_unwanted rest k

  lookup-remove_unwanted :
      (is_value : String → Bool) (unwanted : List String) (k : String) (headers : HeaderMap)
      → lookup k (remove_unwanted header_name is_value unwanted headers)
        ≡ (if is_unwanted unwanted k then none else lookup k headers)
  unfolding remove_unwanted
  lookup-remove_unwanted is_value [] k headers = refl
  lookup-remove_unwanted is_value (h ∷ rest) k headers = elim (Option-cases (header_name h)) [
    | inl bad ↦ ground (arith, bad, lookup-remove_unwanted is_value rest k headers)
    | inr (name, good) ↦ ground (
      arith,
      good,
      lookup-remove_unwanted is_value rest k (remove name headers),
      lookup-remove name k headers,
    )
  ]

-- What an optional map of headers is: a panic where the values are not taken, and else a map with the
-- values that are given by name.
pub data Has (ok : Bool) (value_of : String → Option String) : Option HeaderMap → Type 0 where
  panics : ok ≡ false → Has ok value_of none
  gives :
      (headers : HeaderMap)
      → ok ≡ true
      → ((k : String) → lookup k headers ≡ value_of k)
      → Has ok value_of (some headers)

-- One header more.
abbrev pub with_header : Bool → String → String → (String → Option String) → String → Option String
with_header flag name value value_of k = if flag && name =? k then some value else value_of k

module _ (is_value : String → Bool) where
  set_if-Has :
      (flag : Bool) (name value : String) (ok : Bool) (value_of : String → Option String)
      (o : Option HeaderMap)
      → Has ok value_of o
      → Has
          (ok && (not flag || is_value value))
          (with_header flag name value value_of)
          (set_if is_value flag name value o)
  unfolding set_if
  set_if-Has flag name value ok value_of none (panics h) = panics (ground (arith, h))
  set_if-Has false name value ok value_of (some headers) (gives headers' h v) =
      gives headers (ground (arith, h)) v
  set_if-Has true name value ok value_of (some headers) (gives headers' h v) =
      elim (Bool-cases (is_value value)) [
        | inl good ↦ rw good (
            gives (set_header name value headers) (ground (arith, h))
              (λ k. lookup-set_header name value k headers ∙ ground (arith, v k)))
        | inr bad ↦ rw bad (panics (ground (arith, h)))
      ]

-- Whether the values that the proxy writes itself are taken.
abbrev pub takes_own : (String → Bool) → HeaderConfig → (client_ip original_host : String) → Bool
takes_own is_value c client_ip original_host =
    true
    && (not c.add_forwarded_headers || is_value (forwarded_value client_ip original_host))
    && (not c.add_real_ip || is_value client_ip)
    && (not c.add_real_ip || is_value client_ip)
    && (not c.add_real_ip || is_value "http")
    && (not c.add_proxy_headers || is_value "miwidothttp")
    && (not (is_some c.via_header) || is_value (unwrap_or c.via_header ""))

-- What the proxy writes itself, on top of what the request has.
abbrev pub own_value :
    HeaderConfig
    → (client_ip original_host : String) → (String → Option String)
    → String
    → Option String
own_value c client_ip original_host before =
    with_header (is_some c.via_header) "via" (unwrap_or c.via_header "") (
      with_header c.add_proxy_headers "x-proxied-by" "miwidothttp" (
        with_header c.add_real_ip "x-forwarded-proto" "http" (
          with_header c.add_real_ip "x-forwarded-for" client_ip (
            with_header c.add_real_ip "x-real-ip" client_ip (
              with_header c.add_forwarded_headers "forwarded"
                (forwarded_value client_ip original_host) before)))))

module _ (is_value : String → Bool) where
  add_own-Has :
      (c : HeaderConfig) (client_ip original_host : String) (headers : HeaderMap)
      → Has
          (takes_own is_value c client_ip original_host)
          (own_value c client_ip original_host (λ k. lookup k headers))
          (add_own is_value c client_ip original_host headers)
  unfolding add_own
  add_own-Has c client_ip original_host headers = set_if-Has is_value _ _ _ _ _ _ (
      set_if-Has is_value _ _ _ _ _ _ (
        set_if-Has is_value _ _ _ _ _ _ (
          set_if-Has is_value _ _ _ _ _ _ (
            set_if-Has is_value _ _ _ _ _ _
              (set_if-Has is_value _ _ _ _ _ _ (gives headers refl (λ k. refl)))))))

-- The last value that the configuration gives a name, where the crate takes both.
abbrev pub custom_value :
    (String → Option String)
    → (String → Bool)
    → List (String × String)
    → Option String
    → String
    → Option String
custom_value header_name is_value [] before k = before
custom_value header_name is_value ((key, value) ∷ rest) before k =
    custom_value header_name is_value rest
      (elim (header_name key) [
        | none ↦ before
        | some name ↦ if is_value value && name =? k then some value else before
      ])
      k

module _ (header_name : String → Option String) (is_value : String → Bool) where
  lookup-add_custom :
      (custom : List (String × String)) (k : String) (headers : HeaderMap)
      → lookup k (add_custom header_name is_value custom headers)
        ≡ custom_value header_name is_value custom (lookup k headers) k
  unfolding add_custom
  lookup-add_custom [] k headers = refl
  lookup-add_custom ((key, value) ∷ rest) k headers = elim (Option-cases (header_name key)) [
    | inl bad ↦ rw bad (lookup-add_custom rest k headers)
    | inr (name, good) ↦ elim (Bool-cases (is_value value)) [
      | inl taken ↦
          rw (good, taken)
            (lookup-add_custom rest k (set_header name value headers)
              ∙ ap (λ before. custom_value header_name is_value rest before k)
                  (lookup-set_header name value k headers))
      | inr other ↦ rw (good, other) (lookup-add_custom rest k headers)
    ]
  ]

  apply_lists-Has :
      (c : HeaderConfig) (ok : Bool) (value_of : String → Option String) (o : Option HeaderMap)
      → Has ok value_of o
      → Has ok
          (λ k.
            if is_unwanted header_name c.remove_headers k
            then none
            else custom_value header_name is_value c.add_headers (value_of k) k)
          (apply_lists header_name is_value c o)
  unfolding apply_lists
  apply_lists-Has c ok value_of none (panics h) = panics h
  apply_lists-Has c ok value_of (some headers) (gives headers' h v) = gives _ h (λ k.
      rw
        (
          lookup-remove_unwanted header_name is_value c.remove_headers k
              (add_custom header_name is_value c.add_headers headers),
          lookup-add_custom c.add_headers k headers,
          v k,
        )
        refl)

  -- Adding the proxy's headers panics exactly if a value that it writes itself is not taken; else,
  -- for each name: a header that is to be removed is gone; another one has the last value that the
  -- configuration gives it, or else that which the proxy writes itself, or else that of the request.
  pub add_proxy_headers-Has :
      (c : HeaderConfig) (client_ip original_host : String) (headers : HeaderMap)
      → Has
          (takes_own is_value c client_ip original_host)
          (λ k.
            if is_unwanted header_name c.remove_headers k
            then none
            else custom_value header_name is_value c.add_headers
                (own_value c client_ip original_host (λ j. lookup j headers) k)
                k)
          (add_proxy_headers header_name is_value c client_ip original_host headers)
  unfolding add_proxy_headers
  add_proxy_headers-Has c client_ip original_host headers =
      apply_lists-Has c _ _ _ (add_own-Has is_value c client_ip original_host headers)
