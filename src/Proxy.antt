-- ===== src/Proxy.antt =====
-- proxy/mod.rs (src/proxy/mod.rs): `ProxyManager` and the reader of the PROXY protocol. The modules
-- reverse, socks and websocket, which the file declares, are not in the repository; what their
-- handlers and that of the forward proxy answer is an argument of the dispatch. Addresses of clients
-- are a type with equality, and of the crate http the reading of a header's name and the test of its
-- value are parameters. A `HeaderMap` is a list of names, in lower case, with values.
use miwidothttp.Prelude.{
  ℕ, zero, suc, ◌+◌, ◌-◌, ◌*◌, ◌/◌, ◌%◌, ◌≡◌, Bool, true, false, not, ◌&&◌, ◌||◌, Option, none,
  some, List, [], ◌∷◌, ◌++◌, String, append_text, unwrap_or, is_some, ltb, leb, ◌==◌, Eq, ◌=?◌,
  string_eq, if◌then◌else◌, ◌>>=◌, map, length, take, drop, replicate, get_elem?,
}
use miwidothttp.Prelude.Assoc.{lookup, insert, remove}
mod Config
unfoldable pub use Config.*
pub mod Protocol
pub mod NoAddress
pub mod Headers
pub mod Limits
mod Tests

-- `HeaderMap::insert`.
abbrev pub HeaderMap : Type 0
HeaderMap = List (String × String)

unfoldable pub set_header : String → String → HeaderMap → HeaderMap
set_header name value headers = (name, value) ∷ remove name headers

-- The answers of the dispatch: a response of a proxy, or a status.
pub data Answer (Response : Type 0) : Type 0 where
  response : Response → Answer Response
  bad_gateway method_not_allowed not_implemented : Answer Response

module _ {Response : Type 0} where
  -- `map_err(|_| StatusCode::BAD_GATEWAY)`.
  abbrev pub or_bad_gateway : Option Response → Answer Response
  or_bad_gateway none = bad_gateway
  or_bad_gateway (some r) = response r

-- What the parts of a manager answer to a request.
pub record Parts (Response : Type 0) : Type 0 where
  pub websocket_upgrade : Option Response
  pub connect : Option Response
  pub forwarded : Option Response
  pub reversed : Option Response

-- `new` has a forward proxy exactly in the mode that needs it, and a SOCKS proxy in two.
abbrev pub is_forward : ProxyMode → Bool
is_forward forward = true
is_forward reverse = false
is_forward transparent = false
is_forward socks4 = false
is_forward socks5 = false

abbrev pub is_socks : ProxyMode → Bool
is_socks socks4 = true
is_socks socks5 = true
is_socks reverse = false
is_socks forward = false
is_socks transparent = false

pub record ProxyManager (Ip : Type 0) : Type 0 where
  pub config : ProxyConfig
  pub forward_proxy : Bool
  pub socks_proxy : Bool
  pub connection_count : List (Ip × ℕ)

pub data SocksStart : Type 0 where
  served_at : String → SocksStart
  no_socks : SocksStart
  no_bind_addr : SocksStart

pub record ProxyStats : Type 0 where
  pub total_connections : ℕ
  pub active_connections : ℕ

abbrev pub sum_counts {ℓ} : {Ip : Type ℓ} → List (Ip × ℕ) → ℕ
sum_counts [] = 0
sum_counts ((ip, n) ∷ rest) = n + sum_counts rest

-- The header `upgrade` in lower case, where it can be read as text.
unfoldable pub is_websocket_request : (lowercase : String → Option String) → HeaderMap → Bool
is_websocket_request lowercase headers = elim (lookup "upgrade" headers) [
  | none ↦ false
  | some v ↦ elim (lowercase v) [ none ↦ false | some l ↦ l =? "websocket" ]
]

module _ {Ip : Type 0} where
  unfoldable pub new : ProxyConfig → ProxyManager Ip
  new config = record {
    config = config;
    forward_proxy = is_forward config.mode;
    socks_proxy = is_socks config.mode;
    connection_count = [];
  }

  module _ {Response : Type 0} where
    unfoldable pub handle_connect_method : Parts Response → ProxyManager Ip → Answer Response
    handle_connect_method parts m =
        if m.forward_proxy then or_bad_gateway parts.connect else method_not_allowed

    unfoldable pub handle_forward_proxy : Parts Response → ProxyManager Ip → Answer Response
    handle_forward_proxy parts m =
        if m.forward_proxy then or_bad_gateway parts.forwarded else method_not_allowed

    unfoldable pub handle_mode :
        ProxyMode → Parts Response → (is_connect : Bool) → ProxyManager Ip → Answer Response
    unfolding handle_connect_method handle_forward_proxy
    handle_mode forward parts is_connect m =
        if is_connect then handle_connect_method parts m else handle_forward_proxy parts m
    handle_mode reverse parts is_connect m = or_bad_gateway parts.reversed
    handle_mode transparent parts is_connect m = not_implemented
    handle_mode socks4 parts is_connect m = method_not_allowed
    handle_mode socks5 parts is_connect m = method_not_allowed

    unfoldable pub handle_request :
        Parts Response → (is_websocket is_connect : Bool) → ProxyManager Ip → Answer Response
    unfolding handle_mode
    handle_request parts is_websocket is_connect m =
        if is_websocket
        then or_bad_gateway parts.websocket_upgrade
        else handle_mode m.config.mode parts is_connect m

  unfoldable pub start_socks_server : ProxyManager Ip → SocksStart
  start_socks_server m =
      if m.socks_proxy
      then elim m.config.bind_addr [ none ↦ no_bind_addr | some addr ↦ served_at addr ]
      else no_socks

  -- The u32 sum of the counts wraps.
  unfoldable pub get_stats : ProxyManager Ip → ProxyStats
  get_stats m = record {
    total_connections = sum_counts m.connection_count % 4294967296;
    active_connections = length m.connection_count;
  }

module _ {Ip : Type 0} ⦃e : Eq Ip⦄ where
  unfoldable pub check_rate_limit : Ip → ProxyManager Ip → ProxyManager Ip × Bool
  check_rate_limit client_ip m = elim m.config.limits.rate_limit_per_ip [
    | none ↦ (m, true)
    | some limit ↦
        let count = unwrap_or (lookup client_ip m.connection_count) 0 in
        if leb limit count
        then (record m { connection_count = insert client_ip count m.connection_count }, false)
        else (record m { connection_count = insert client_ip (count + 1) m.connection_count }, true)
  ]

-- The value of the header Forwarded.
abbrev pub forwarded_value : (client_ip original_host : String) → String
forwarded_value client_ip original_host =
    append_text "for="
      (append_text client_ip (append_text ";host=" (append_text original_host ";proto=http")))

-- `HeaderValue::from_str(..).unwrap()` panics on a value that the crate does not take, which is
-- `none`. Header names that are written in the source are given in lower case.
module _ (is_value : String → Bool) where
  unfoldable pub set_if : Bool → String → String → Option HeaderMap → Option HeaderMap
  unfolding set_header
  set_if flag name value none = none
  set_if flag name value (some headers) =
      if flag
      then (if is_value value then some (set_header name value headers) else none)
      else some headers

  -- The headers that the proxy writes itself.
  unfoldable pub add_own :
      HeaderConfig → (client_ip original_host : String) → HeaderMap → Option HeaderMap
  unfolding set_if
  add_own c client_ip original_host headers =
      set_if (is_some c.via_header) "via" (unwrap_or c.via_header "") (
        set_if c.add_proxy_headers "x-proxied-by" "miwidothttp" (
          set_if c.add_real_ip "x-forwarded-proto" "http" (
            set_if c.add_real_ip "x-forwarded-for" client_ip (
              set_if c.add_real_ip "x-real-ip" client_ip (
                set_if c.add_forwarded_headers "forwarded" (forwarded_value client_ip original_host)
                  (some headers))))))

module _ (header_name : String → Option String) (is_value : String → Bool) where
  unfoldable pub add_custom : List (String × String) → HeaderMap → HeaderMap
  add_custom [] headers = headers
  add_custom ((key, value) ∷ rest) headers = add_custom rest (elim (header_name key) [
    | none ↦ headers
    | some name ↦ if is_value value then set_header name value headers else headers
  ])

  unfoldable pub remove_unwanted : List String → HeaderMap → HeaderMap
  remove_unwanted [] headers = headers
  remove_unwanted (header ∷ rest) headers =
      remove_unwanted rest
        (elim (header_name header) [ none ↦ headers | some name ↦ remove name headers ])

  -- The two loops at the end, which are reached if nothing has panicked.
  unfoldable pub apply_lists : HeaderConfig → Option HeaderMap → Option HeaderMap
  unfolding add_custom remove_unwanted
  apply_lists c none = none
  apply_lists c (some h) = some (remove_unwanted c.remove_headers (add_custom c.add_headers h))

  unfoldable pub add_proxy_headers :
      HeaderConfig → (client_ip original_host : String) → HeaderMap → Option HeaderMap
  unfolding apply_lists add_own
  add_proxy_headers c client_ip original_host headers =
      apply_lists c (add_own is_value c client_ip original_host headers)
