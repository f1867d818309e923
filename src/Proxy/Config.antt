-- ===== src/Proxy/Config.antt =====
-- proxy/mod.rs (src/proxy/mod.rs): the configuration of the proxies.
use miwidothttp.Prelude.{ℕ, Bool, true, false, Option, none, some, List, [], ◌∷◌, String}

pub data ProxyMode : Type 0 where
  reverse forward transparent socks4 socks5 : ProxyMode

pub data AuthType : Type 0 where
  basic digest ntlm bearer : AuthType

pub record ProxyAuth : Type 0 where
  pub auth_type : AuthType
  pub username : String
  pub password : String
  pub realm : Option String

pub record UpstreamProxy : Type 0 where
  pub url : String
  pub auth : Option ProxyAuth
  pub use_for_https : Bool

pub record HeaderConfig : Type 0 where
  pub preserve_host : Bool
  pub add_forwarded_headers : Bool
  pub add_real_ip : Bool
  pub add_proxy_headers : Bool
  pub remove_headers : List String
  pub add_headers : List (String × String)
  pub via_header : Option String

pub record ProxyLimits : Type 0 where
  pub max_request_size : ℕ
  pub max_response_size : ℕ
  pub max_concurrent_connections : ℕ
  pub rate_limit_per_ip : Option ℕ
  pub bandwidth_limit_kbps : Option ℕ

-- The settings of the pool, the timeouts and the log, which only libraries read, are left out.
pub record ProxyConfig : Type 0 where
  pub mode : ProxyMode
  pub bind_addr : Option String
  pub upstream_proxy : Option UpstreamProxy
  pub authentication : Option ProxyAuth
  pub headers : HeaderConfig
  pub limits : ProxyLimits

-- `ProxyConfig::default`.
unfoldable pub default_config : ProxyConfig
default_config = record {
  mode = reverse;
  bind_addr = none;
  upstream_proxy = none;
  authentication = none;
  headers = record {
    preserve_host = false;
    add_forwarded_headers = true;
    add_real_ip = true;
    add_proxy_headers = true;
    remove_headers = "Connection" ∷ "Upgrade" ∷ [];
    add_headers = [];
    via_header = some "miwidothttp/1.0";
  };
  limits = record {
    max_request_size = 104857600;
    max_response_size = 104857600;
    max_concurrent_connections = 10000;
    rate_limit_per_ip = some 1000;
    bandwidth_limit_kbps = none;
  };
}
