-- ===== src/Startup/Binds.antt =====
-- `config_getNetworkingConfig` of src/config.c: what src/networking.c is told to listen on.
use cfloor.Base.{
  ℕ, Bool, true, false, Option, none, some, List, map, Bytes, Alloc, ◌>>◌, return, allocate,
}
use cfloor.Headers.{Headers, headers_create}
use cfloor.Config.{SslSettings, Bind, Config}

-- `struct bind`. `config` is the pointer in its settings, which `config_getHandler` reads.
pub record ListenBind : Type 0 where
  pub address : Option Bytes
  pub port : Option Bytes
  pub config : Config
  pub ssl : Bool
  pub ssl_settings : Option SslSettings

pub record NetworkingConfig : Type 0 where
  pub binds : List ListenBind
  pub max_connections : ℕ
  pub connection_timeout : ℕ
  pub default_headers : Headers

abbrev pub has_ssl : Option SslSettings → Bool
has_ssl none = false
has_ssl (some s) = true

-- Built without SSL_SUPPORT, the settings are left out.
abbrev pub to_listen : Bool → Config → Bind → ListenBind
to_listen true c b = record {
  address = b.addr;
  port = b.port;
  config = c;
  ssl = has_ssl b.ssl;
  ssl_settings = b.ssl;
}
to_listen false c b = record {
  address = b.addr;
  port = b.port;
  config = c;
  ssl = false;
  ssl_settings = none;
}

-- The one error is that there is no memory for the array; `getHandler` is always `config_getHandler`.
unfoldable pub config_get_networking_config : Bool → Config → Alloc Unit NetworkingConfig
config_get_networking_config ssl_support c = do
  allocate tt
  return (record {
    binds = map (to_listen ssl_support c) c.binds;
    max_connections = 1024;
    connection_timeout = 30000;
    default_headers = headers_create;
  })
