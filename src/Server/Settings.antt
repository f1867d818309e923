-- ===== src/Server/Settings.antt =====
-- main.rs: the configuration and where it is read. A file gives each field that stands in it; the
-- fields `security` and `processes` are skipped by serde, so that a file never gives them.
-- `SecurityConfig`, which nothing here reads, is left out.
use miwidothttp.Prelude.{
  ℕ, Bool, false, Option, none, some, List, [], ◌∷◌, String, unwrap_or, if◌then◌else◌, ◌>>=◌,
}
use miwidothttp.ProcessManager.{ProcessConfig}

pub record ServerConfig : Type 0 where
  pub http_port : ℕ
  pub https_port : ℕ
  pub bind_address : String
  pub static_dir : String

pub record SslConfig : Type 0 where
  pub enabled : Bool
  pub cert_path : Option String
  pub key_path : Option String

pub record BackendConfig : Type 0 where
  pub process : Option ProcessConfig
  pub target : Option String
  pub health_check : Option String

pub record Config : Type 0 where
  pub server : ServerConfig
  pub ssl : SslConfig
  pub backends : List (String × BackendConfig)
  pub processes : List (String × ProcessConfig)

abbrev pub default_server : ServerConfig
default_server = record {
  http_port = 8080;
  https_port = 8443;
  bind_address = "0.0.0.0";
  static_dir = "./static";
}

abbrev pub default_ssl : SslConfig
default_ssl = record { enabled = false; cert_path = none; key_path = none }

-- What stands in a file.
pub record ServerTable : Type 0 where
  pub http_port : Option ℕ
  pub https_port : Option ℕ
  pub bind_address : Option String
  pub static_dir : Option String

pub record SslTable : Type 0 where
  pub enabled : Option Bool
  pub cert_path : Option String
  pub key_path : Option String

pub record FileTable : Type 0 where
  pub server : Option ServerTable
  pub ssl : Option SslTable
  pub backends : Option (List (String × BackendConfig))

unfoldable pub server_of : Option ServerTable → ServerConfig
server_of none = default_server
server_of (some t) = record {
  http_port = unwrap_or t.http_port default_server.http_port;
  https_port = unwrap_or t.https_port default_server.https_port;
  bind_address = unwrap_or t.bind_address default_server.bind_address;
  static_dir = unwrap_or t.static_dir default_server.static_dir;
}

unfoldable pub ssl_of : Option SslTable → SslConfig
ssl_of none = default_ssl
ssl_of (some t) = record {
  enabled = unwrap_or t.enabled false;
  cert_path = t.cert_path;
  key_path = t.key_path;
}

unfoldable pub config_of : FileTable → Config
unfolding server_of ssl_of
config_of t = record {
  server = server_of t.server;
  ssl = ssl_of t.ssl;
  backends = unwrap_or t.backends [];
  processes = [];
}

abbrev pub default_config : Config
default_config = record {
  server = default_server;
  ssl = default_ssl;
  backends = [];
  processes = [];
}

-- The loop over the places of the file: a file that is not there, cannot be read or does not parse is
-- passed over.
unfoldable pub load_from :
    (exists : String → Bool) (read : String → Option String) (parse : String → Option FileTable)
    → List String
    → Config
unfolding config_of
load_from exists read parse [] = default_config
load_from exists read parse (path ∷ paths) =
    let rest = load_from exists read parse paths in
    if exists path then elim (read path >>= parse) [ some t ↦ config_of t | none ↦ rest ] else rest

abbrev pub config_paths : List String
config_paths = "/etc/miwidothttp/config.toml" ∷ "./config.toml" ∷ "config.toml" ∷ []

unfoldable pub load_config :
    (exists : String → Bool) (read : String → Option String) (parse : String → Option FileTable)
    → Config
unfolding load_from
load_config exists read parse = load_from exists read parse config_paths
