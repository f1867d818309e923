-- ===== src/ForwardProxy/Credentials.antt =====
-- proxy/forward.rs: where the credentials for an upstream proxy go.
use miwidothttp.Prelude.{
  ◌≡◌, refl, inl, inr, some, is_some, List, [], ◌∷◌, String, append_text, string_eq, Bool-cases,
}
use miwidothttp.Prelude.Assoc.{lookup}
use miwidothttp.Proxy.{ProxyAuth, UpstreamProxy, ProxyConfig, HeaderMap, set_header}
use miwidothttp.ForwardProxy.{
  Request, Contact, requests, Network, Crates, credentials, authenticate_request, send_request,
  request_through_upstream, handle_request,
}

-- What is contacted: nothing, or the address of a URI by a request that carries a value where
-- credentials for a proxy stand.
pub data SentToOrigin (uri value : String) : List Contact → Type 0 where
  not_sent : SentToOrigin uri value []
  to_origin :
      (headers : HeaderMap)
      → lookup "proxy-authorization" headers ≡ some value
      → SentToOrigin uri value (requests uri headers ∷ [])

abbrev pub basic_value : Crates → ProxyAuth → String
basic_value crates auth = append_text "Basic " (crates.encode (credentials auth))

module _ (crates : Crates) {Response : Type 0} (network : Network Response) where
  upstream-SentToOrigin :
      (uri : String) (headers : HeaderMap) (upstream : UpstreamProxy) (auth : ProxyAuth)
      → upstream.auth ≡ some auth
      → SentToOrigin uri
          (basic_value crates auth)
          (request_through_upstream crates network uri headers upstream).0
  unfolding request_through_upstream send_request set_header lookup
  upstream-SentToOrigin uri headers upstream auth known =
      elim (Bool-cases (crates.is_value (basic_value crates auth))) [
        | inl good ↦
            rw (request_through_upstream, known, good)
              (to_origin (set_header "proxy-authorization" (basic_value crates auth) headers) refl)
        | inr bad ↦ rw (request_through_upstream, known, bad) not_sent
      ]

  -- Where an upstream proxy is configured with credentials, a plain request contacts nothing or is
  -- sent to the address of its own URI, and to nothing else, with these credentials in its headers.
  pub handle_request-SentToOrigin :
      (config : ProxyConfig) (upstream : UpstreamProxy) (auth : ProxyAuth) (req : Request)
      → config.upstream_proxy ≡ some upstream
      → upstream.auth ≡ some auth
      → SentToOrigin req.uri (basic_value crates auth) (handle_request crates network config req).0
  unfolding handle_request
  handle_request-SentToOrigin config upstream auth req used known =
      elim (Bool-cases (is_some req.scheme)) [
        | inr relative ↦ rw (handle_request, relative) not_sent
        | inl absolute ↦
            elim (Bool-cases (authenticate_request crates config.authentication req.headers)) [
              | inr refused ↦ rw (handle_request, absolute, refused) not_sent
              | inl passed ↦
                  rw (handle_request, absolute, passed, used)
                    (upstream-SentToOrigin req.uri _ upstream auth known)
            ]
      ]
