-- ===== src/ForwardProxy/Tests.antt =====
-- proxy/forward.rs: the theorems' witnesses, and a raw connection that needs no credentials.
use miwidothttp.Prelude.{
  ◌≡◌, ◌⊎◌, refl, true, false, none, some, is_some, [], ◌∷◌, String, if◌then◌else◌, string_eq,
}
use miwidothttp.Proxy.{ProxyAuth, basic, ProxyConfig, default_config}
use miwidothttp.ForwardProxy.{
  Request, connects, auth_required, relative_uri, missing_authority, Network, Crates,
  authenticate_request, handle_connect, handle_request, handle_connection, raw_contacts,
}
use miwidothttp.ForwardProxy.Authentication.{Carries, handlers-authenticated}
use miwidothttp.ForwardProxy.Credentials.{SentToOrigin, basic_value, handle_request-SentToOrigin}

-- A base64 that leaves texts as they are, and a network that answers everything.
abbrev crates : Crates
crates = record {
  encode = λ s. s;
  decode = λ s. some s;
  parse_url = λ s. none;
  is_value = λ s. true;
}

abbrev network : Network String
network = record {
  opens = λ addr. true;
  upstream_answer = λ addr sent. some "HTTP/1.1 200 OK";
  respond = λ uri headers. some "OK";
}

abbrev alice : ProxyAuth
alice = record { auth_type = basic; username = "alice"; password = "secret"; realm = none }

abbrev config : ProxyConfig
config = record default_config {
  authentication = some alice;
  upstream_proxy =
      some record { url = "http://proxy:8080"; auth = some alice; use_for_https = false };
}

abbrev request : Request
request = record {
  uri = "http://evil.example/";
  scheme = some "http";
  authority = some ("evil.example", none);
  headers = ("proxy-authorization", "Basic alice:secret") ∷ [];
}

handlers-authenticated_example :
    (((handle_connect crates network config request).0 ≡ []) ⊎ Carries crates alice request.headers)
    × (((handle_request crates network config request).0 ≡ [])
        ⊎ Carries crates alice request.headers)
    × (authenticate_request crates (some alice) request.headers ≡ false
        → ((handle_connect crates network config request).1
            ≡ (if is_some request.authority then auth_required else missing_authority))
          × ((handle_request crates network config request).1
              ≡ (if is_some request.scheme then auth_required else relative_uri)))
unfolding default_config
handlers-authenticated_example = handlers-authenticated crates network config alice request refl

handle_request-SentToOrigin_example :
    SentToOrigin "http://evil.example/"
      (basic_value crates alice)
      (handle_request crates network config request).0
unfolding default_config
handle_request-SentToOrigin_example =
    handle_request-SentToOrigin crates network config
      record { url = "http://proxy:8080"; auth = some alice; use_for_https = false } alice request
      refl refl

-- No configuration takes part in a raw connection.
raw_connect :
    handle_connection (("CONNECT" ∷ "db.internal:5432" ∷ "HTTP/1.1" ∷ [], false) ∷ [])
    ≡ connects "db.internal:5432" ∷ []
unfolding handle_connection raw_contacts
raw_connect = refl
