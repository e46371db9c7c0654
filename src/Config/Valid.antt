-- ===== src/Config/Valid.antt =====
-- What config_getHandler and the network code read of a configuration from `config_parse` of
-- src/config.c.
pub mod Finish
use cfloor.Base.{Bool, true, ◌≡◌, Option, none, some, List, [], ◌∷◌, Bytes, All}
use cfloor.Config.{HandlerType, Handler, Site, SslSettings, Bind, Config, Surroundings}
use cfloor.Config.Shape.{Present}

-- The function is the one of the type, and the document root is the one of the site.
pub record IsServed (root : Bytes) (h : Handler) : Type 0 where
  pub dir : Present h.dir
  pub type : HandlerType
  pub type_set : h.type ≡ some type
  pub handler_set : h.handler ≡ some type
  pub root_set : h.document_root ≡ some root

pub record IsServable (s : Site) : Type 0 where
  pub root : Bytes
  pub root_set : s.document_root ≡ some root
  pub handlers : All (IsServed root) s.handlers

pub record HasFiles (w : Surroundings) (s : SslSettings) : Type 0 where
  pub key : Bytes
  pub certificate : Bytes
  pub key_set : s.private_key ≡ some key
  pub certificate_set : s.certificate ≡ some certificate
  pub accepted : w.ssl_init key certificate ≡ true

abbrev pub IsSecure : Surroundings → Option SslSettings → Type 0
IsSecure w none = Unit
IsSecure w (some s) = HasFiles w s

pub record IsReachable (w : Surroundings) (b : Bind) : Type 0 where
  pub addr : Present b.addr
  pub port : Present b.port
  pub ssl : IsSecure w b.ssl
  pub sites : All IsServable b.sites

unfoldable pub IsValid : Surroundings → Config → Type 0
IsValid w c = All (IsReachable w) c.binds
