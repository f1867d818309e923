-- ===== src/ForwardProxy.antt =====
-- proxy/forward.rs (src/proxy/forward.rs): `ForwardProxy`. A request has what the code reads of it.
-- What is contacted over the network is a list, in its order, and what the network answers is the
-- record `Network`; of the crates, base64 is `encode`, and `decode` with the reading of its bytes as
-- text; `parse_url` gives the host and the port of a URL, and `is_value` tests a header's value.
use miwidothttp.Prelude.{
  ℕ, Bool, true, false, not, ◌&&◌, Option, none, some, is_some, List, [], ◌∷◌, ◌++◌, String,
  append_text, unwrap_or, strip_prefix, contains_text, ◌=?◌, string_eq, if◌then◌else◌,
}
use miwidothttp.Prelude.Assoc.{lookup, remove}
use miwidothttp.Rewrite.{decimal_text}
use miwidothttp.Proxy.{
  ProxyAuth, AuthType, basic, digest, ntlm, bearer, UpstreamProxy, ProxyConfig, HeaderMap,
  set_header,
}
pub mod Authentication
pub mod Credentials
mod Tests

pub record Request : Type 0 where
  pub uri : String
  pub scheme : Option String
  pub authority : Option (String × Option ℕ)
  pub headers : HeaderMap

-- What goes out: a connection, the bytes sent to an upstream proxy, or a request to the address of its
-- URI.
pub data Contact : Type 0 where
  connects : String → Contact
  sends : String → String → Contact
  requests : String → HeaderMap → Contact

pub data Reply (Response : Type 0) : Type 0 where
  established auth_required : Reply Response
  bad_gateway : String → Reply Response
  passed_on : Response → Reply Response
  missing_authority relative_uri bad_upstream bad_header : Reply Response
  io_error : Reply Response

-- What the network answers: whether a connection opens, what an upstream proxy sends back to a request
-- as text, and the response to a request.
pub record Network (Response : Type 0) : Type 0 where
  pub opens : String → Bool
  pub upstream_answer : String → String → Option String
  pub respond : String → HeaderMap → Option Response

pub record Crates : Type 0 where
  pub encode : String → String
  pub decode : String → Option String
  pub parse_url : String → Option (Option String × Option ℕ)
  pub is_value : String → Bool

abbrev pub is_basic : AuthType → Bool
is_basic basic = true
is_basic digest = false
is_basic ntlm = false
is_basic bearer = false

-- `format!("{}:{}", username, password)`.
abbrev pub credentials : ProxyAuth → String
credentials auth = append_text auth.username (append_text ":" auth.password)

abbrev pub host_and_port : String → ℕ → String
host_and_port host port = append_text host (append_text ":" (decimal_text port))

module _ (crates : Crates) where
  unfoldable pub validate_proxy_auth : String → ProxyAuth → Bool
  validate_proxy_auth auth_header auth =
      if is_basic auth.auth_type
      then elim (strip_prefix auth_header "Basic ") [
        | none ↦ false
        | some encoded ↦ elim (crates.decode encoded) [
          | none ↦ false
          | some text ↦ text =? credentials auth
        ]
      ]
      else false

  unfoldable pub authenticate_request : Option ProxyAuth → HeaderMap → Bool
  unfolding validate_proxy_auth
  authenticate_request none headers = true
  authenticate_request (some auth) headers = elim (lookup "proxy-authorization" headers) [
    | none ↦ false
    | some h ↦ validate_proxy_auth h auth
  ]

  -- The request that opens a tunnel through an upstream proxy.
  unfoldable pub connect_text : String → UpstreamProxy → String
  connect_text target upstream =
      append_text
        (append_text "CONNECT "
          (append_text target (append_text " HTTP/1.1\r\nHost: " (append_text target "\r\n"))))
        (append_text
          (elim upstream.auth [
            | none ↦ ""
            | some auth ↦
                append_text "Proxy-Authorization: Basic "
                  (append_text (crates.encode (credentials auth)) "\r\n")
          ])
          "\r\n")

  module _ {Response : Type 0} (network : Network Response) where
    unfoldable pub connect_through_upstream : String → UpstreamProxy → List Contact × Reply Response
    unfolding connect_text
    connect_through_upstream target upstream = elim (crates.parse_url upstream.url) [
      | none ↦ ([], bad_upstream)
      | some parts ↦
          let addr = host_and_port (unwrap_or parts.0 "localhost") (unwrap_or parts.1 8080) in
          let request = connect_text target upstream in
          if network.opens addr
          then elim (network.upstream_answer addr request) [
            | none ↦ (connects addr ∷ sends addr request ∷ [], io_error)
            | some answer ↦ (
              connects addr ∷ sends addr request ∷ [],
              (if contains_text answer "200"
                  then established
                  else bad_gateway "Upstream proxy connection failed"),
            )
          ]
          else (connects addr ∷ [], bad_gateway "Failed to connect to upstream proxy")
    ]

    -- After the test of the credentials.
    unfoldable pub open_tunnel : ProxyConfig → String → List Contact × Reply Response
    unfolding connect_through_upstream
    open_tunnel config target =
        let direct : List Contact × Reply Response = (
          connects target ∷ [],
          (if network.opens target
              then established
              else bad_gateway (append_text "Failed to connect to " target)),
        ) in
        elim config.upstream_proxy [
          | none ↦ direct
          | some upstream ↦
              if upstream.use_for_https then connect_through_upstream target upstream else direct
        ]

    unfoldable pub handle_connect : ProxyConfig → Request → List Contact × Reply Response
    unfolding authenticate_request open_tunnel
    handle_connect config req = elim req.authority [
      | none ↦ ([], missing_authority)
      | some authority ↦
          if authenticate_request config.authentication req.headers
          then open_tunnel config (host_and_port authority.0 (unwrap_or authority.1 443))
          else ([], auth_required)
    ]

    -- `self.client.request`, which goes to the address of the request's own URI.
    unfoldable pub send_request : String → String → HeaderMap → List Contact × Reply Response
    send_request failure uri headers = (
      requests uri headers ∷ [],
      elim (network.respond uri headers) [ none ↦ bad_gateway failure | some r ↦ passed_on r ],
    )

    unfoldable pub request_through_upstream :
        String → HeaderMap → UpstreamProxy → List Contact × Reply Response
    unfolding send_request set_header
    request_through_upstream uri headers upstream = elim upstream.auth [
      | none ↦ send_request "Upstream proxy request failed" uri headers
      | some auth ↦
          let value = append_text "Basic " (crates.encode (credentials auth)) in
          if crates.is_value value
          then send_request "Upstream proxy request failed" uri
              (set_header "proxy-authorization" value headers)
          else ([], bad_header)
    ]

    unfoldable pub handle_request : ProxyConfig → Request → List Contact × Reply Response
    unfolding authenticate_request request_through_upstream send_request
    handle_request config req =
        let stripped = remove "proxy-connection" (remove "proxy-authorization" req.headers) in
        if is_some req.scheme
        then (if authenticate_request config.authentication req.headers
            then elim config.upstream_proxy [
              | none ↦ send_request "Proxy request failed" req.uri stripped
              | some upstream ↦ request_through_upstream req.uri stripped upstream
            ]
            else ([], auth_required))
        else ([], relative_uri)

-- What a request line of a raw connection contacts.
unfoldable pub raw_contacts : (method uri : String) → List Contact
raw_contacts method uri = if method =? "CONNECT" then connects uri ∷ [] else []

-- A raw connection: what is contacted for the words of the first line of each read. The Boolean of a
-- read says whether a write to the client fails, which ends the connection. A tunnel ends before the
-- next read.
unfoldable pub handle_connection : List (List String × Bool) → List Contact
unfolding raw_contacts
handle_connection [] = []
handle_connection ((method ∷ uri ∷ more, write_fails) ∷ reads) =
    let rest = handle_connection reads in
    raw_contacts method uri ++ (if write_fails then [] else rest)
handle_connection (([], write_fails) ∷ reads) = handle_connection reads
handle_connection ((word ∷ [], write_fails) ∷ reads) = handle_connection reads
