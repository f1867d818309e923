-- ===== src/ForwardProxy/Authentication.antt =====
-- proxy/forward.rs: who may use the proxy.
use miwidothttp.Prelude.{
  ◌≡◌, ◌⊎◌, refl, inl, inr, true, false, some, is_some, [], String, strip_prefix, string_eq,
  if◌then◌else◌, Option-cases, Bool-cases, arith,
}
use miwidothttp.Prelude.Assoc.{lookup}
use miwidothttp.Proxy.{ProxyAuth, AuthType, basic, digest, ntlm, bearer, ProxyConfig, HeaderMap}
use miwidothttp.ForwardProxy.{
  Request, auth_required, relative_uri, missing_authority, Network, Crates, credentials, is_basic,
  validate_proxy_auth, authenticate_request, handle_connect, handle_request,
}

-- A header that carries the user's name and password in the scheme Basic.
pub record Carries (crates : Crates) (auth : ProxyAuth) (headers : HeaderMap) : Type 0 where
  pub is_scheme : auth.auth_type ≡ basic
  pub value : String
  pub in_headers : lookup "proxy-authorization" headers ≡ some value
  pub encoded : String
  pub after_scheme : strip_prefix value "Basic " ≡ some encoded
  pub decodes : crates.decode encoded ≡ some (credentials auth)

is_basic-basic : (t : AuthType) → is_basic t ≡ true → t ≡ basic
is_basic-basic basic h = refl
is_basic-basic digest h = cc
is_basic-basic ntlm h = cc
is_basic-basic bearer h = cc

module _ (crates : Crates) where
  validate-Carries :
      (auth : ProxyAuth) (headers : HeaderMap) (value : String)
      → lookup "proxy-authorization" headers ≡ some value
      → validate_proxy_auth crates value auth ≡ true
      → Carries crates auth headers
  unfolding validate_proxy_auth
  validate-Carries auth headers value found valid =
      elim (Option-cases (strip_prefix value "Basic ")) [
        | inl other ↦ absurd (ground (arith, other, valid))
        | inr (encoded, after) ↦ elim (Option-cases (crates.decode encoded)) [
          | inl garbled ↦ absurd (ground (arith, after, garbled, valid))
          | inr (text, decoded) ↦ record {
            is_scheme = is_basic-basic auth.auth_type (ground (arith, valid));
            value = value;
            in_headers = found;
            encoded = encoded;
            after_scheme = after;
            decodes =
                ground (arith, after, decoded, valid, string_eq.test_iff text (credentials auth));
          }
        ]
      ]

  authenticate-Carries :
      (auth : ProxyAuth) (headers : HeaderMap)
      → authenticate_request crates (some auth) headers ≡ true
      → Carries crates auth headers
  unfolding authenticate_request
  authenticate-Carries auth headers valid =
      elim (Option-cases (lookup "proxy-authorization" headers)) [
        | inl missing ↦ absurd (ground (arith, missing, valid))
        | inr (value, found) ↦
            validate-Carries auth headers value found (ground (arith, found, valid))
      ]

  -- Where the proxy asks for credentials, a CONNECT request and a plain request contact nothing, or
  -- the request's header carries the configured name and password in the scheme Basic; where a
  -- request that names its target has no right to pass, the answer asks for credentials.
  pub handlers-authenticated :
      {Response : Type 0} (network : Network Response) (config : ProxyConfig) (auth : ProxyAuth)
      (req : Request)
      → config.authentication ≡ some auth
      → (((handle_connect crates network config req).0 ≡ []) ⊎ Carries crates auth req.headers)
        × (((handle_request crates network config req).0 ≡ []) ⊎ Carries crates auth req.headers)
        × (authenticate_request crates (some auth) req.headers ≡ false
            → ((handle_connect crates network config req).1
                ≡ (if is_some req.authority then auth_required else missing_authority))
              × ((handle_request crates network config req).1
                  ≡ (if is_some req.scheme then auth_required else relative_uri)))
  unfolding handle_connect handle_request
  handlers-authenticated network config auth req asks =
      elim (Bool-cases (authenticate_request crates (some auth) req.headers)) [
        | inl valid ↦
            let carried = authenticate-Carries auth req.headers valid in
            (inr carried, inr carried, λ invalid. absurd (ground (arith, valid, invalid)))
        | inr invalid ↦ (
          inl (ground (arith, asks, invalid, Option-cases req.authority)),
          inl (ground (arith, asks, invalid)),
          λ again. (
            ground (arith, asks, invalid, Option-cases req.authority),
            ground (arith, asks, invalid),
          ),
        )
      ]
