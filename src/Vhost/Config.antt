-- ===== src/Vhost/Config.antt =====
-- vhost.rs (src/vhost.rs): the configuration of a virtual host. A u16, u32 or u64 is an ℕ, an i32 a
-- ℤ and a map an association list. The fields `rewrites` and `rewrite_engine` of VirtualHost, which
-- the manager never reads, are left out.
use miwidothttp.Prelude.{ℕ, ℤ, Bool, Option, List, String}

pub data AuthType : Type 0 where
  basic bearer digest : AuthType

pub data LoadBalanceStrategy : Type 0 where
  round_robin least_conn ip_hash random weighted : LoadBalanceStrategy

pub data ClientAuth : Type 0 where
  no_auth optional required : ClientAuth

pub record VHostSsl : Type 0 where
  pub cert_path : Option String
  pub key_path : Option String
  pub client_auth : Option ClientAuth
  pub protocols : Option (List String)
  pub ciphers : Option String

pub record RetryConfig : Type 0 where
  pub attempts : ℕ
  pub delay_ms : ℕ
  pub backoff : Bool

pub record VHostBackend : Type 0 where
  pub urls : List String
  pub strategy : LoadBalanceStrategy
  pub health_check : Option String
  pub timeout : Option ℕ
  pub retry : Option RetryConfig

pub record VHostLogging : Type 0 where
  pub access_log : Option String
  pub error_log : Option String
  pub format : Option String

pub record VHostLimits : Type 0 where
  pub rate_limit : Option ℕ
  pub max_connections : Option ℕ
  pub max_request_size : Option String
  pub timeout : Option ℕ

pub record Redirect : Type 0 where
  pub from : String
  pub to : String
  pub status : ℕ
  pub permanent : Bool

pub record AuthConfig : Type 0 where
  pub auth_type : AuthType
  pub realm : String
  pub users : Option (List (String × String))

pub record AccessControl : Type 0 where
  pub allow : Option (List String)
  pub deny : Option (List String)
  pub auth : Option AuthConfig

pub record VirtualHost : Type 0 where
  pub domains : List String
  pub priority : ℤ
  pub ssl : Option VHostSsl
  pub root : Option String
  pub backend : Option VHostBackend
  pub logging : Option VHostLogging
  pub limits : Option VHostLimits
  pub headers : Option (List (String × String))
  pub error_pages : Option (List (ℕ × String))
  pub redirects : Option (List Redirect)
  pub access_control : Option AccessControl
