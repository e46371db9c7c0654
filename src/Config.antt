-- ===== src/Config.antt =====
-- src/config.h and the state of `config_parse` in src/config.c. `currentBind`, `currentSite` and
-- `currentHandler` always point to the entry that was appended last, so they are the last bind of
-- the configuration, the last site of that bind and the last handler of that site.
pub mod Tokens
pub mod Inner
pub mod Switch
pub mod Reader
pub mod Validate
pub mod Shape
pub mod Valid
pub mod Print
mod Tests
use cfloor.Base.{ℕ, Bool, Option, none, some, List, [], ◌∷◌, Bytes, modify_last}
use cfloor.Logging.{default_loglevel}

pub data HandlerType : Type 0 where
  file_handler cgi_handler : HandlerType

-- `type` is -1 until it is set. `document_root` stands for the field of that name of either
-- settings, which share their place; `handler` is the function that the type selects.
pub record Handler : Type 0 where
  pub dir : Option Bytes
  pub type : Option HandlerType
  pub handler : Option HandlerType
  pub document_root : Option Bytes
  pub index_files : List Bytes

pub record Site : Type 0 where
  pub hostnames : List Bytes
  pub document_root : Option Bytes
  pub handlers : List Handler

pub record SslSettings : Type 0 where
  pub private_key : Option Bytes
  pub certificate : Option Bytes

pub record Bind : Type 0 where
  pub addr : Option Bytes
  pub port : Option Bytes
  pub ssl : Option SslSettings
  pub sites : List Site

pub record LogSettings : Type 0 where
  pub access_logfile : Option Bytes
  pub server_logfile : Option Bytes
  pub server_verbosity : ℕ

pub record Config : Type 0 where
  pub binds : List Bind
  pub logging : LogSettings

-- The numbered states of the parser, in the order of their #define lines.
pub data State : Type 0 where
  root bind_value bind_brackets_open bind_content : State
  ssl_brackets_open ssl_content ssl_key_equals ssl_key_value ssl_cert_equals ssl_cert_value : State
  site_brackets_open site_content site_host_equals site_host_value : State
  site_root_equals site_root_value : State
  handler_value handler_brackets_open handler_content : State
  type_equals type_value index_equals index_value : State
  logging_brackets_open logging_content access_file_equals access_file_value : State
  server_file_equals server_file_value verbosity_equals verbosity_value : State

-- What is logged before the parser gives up, with the line where it names one.
pub data ConfigError : Type 0 where
  no_memory unexpected_eof no_ssl_support no_real_path : ConfigError
  missing_key missing_certificate ssl_failed no_document_root unknown_handler : ConfigError
  unexpected_token wrong_address unknown_property ssl_twice : ℕ → ConfigError
  unknown_type not_file_handler token_too_long : ℕ → ConfigError

-- What the parser takes from its surroundings: whether it is built with SSL_SUPPORT, `realpath`,
-- and `ssl_initSettings`, which says whether OpenSSL takes the certificate and the key.
pub record Surroundings : Type 0 where
  pub ssl_support : Bool
  pub realpath : Bytes → Option Bytes
  pub ssl_init : Bytes → Bytes → Bool

pub record Machine : Type 0 where
  pub config : Config
  pub state : State

abbrev pub empty_config : Config
empty_config = record {
  binds = [];
  logging = record {
    access_logfile = none;
    server_logfile = none;
    server_verbosity = default_loglevel;
  };
}

abbrev pub new_bind : Bind
new_bind = record { addr = none; port = none; ssl = none; sites = [] }

abbrev pub new_site : Site
new_site = record { hostnames = []; document_root = none; handlers = [] }

abbrev pub new_handler : Handler
new_handler = record {
  dir = none;
  type = none;
  handler = none;
  document_root = none;
  index_files = [];
}

unfoldable pub on_bind : (Bind → Bind) → Config → Config
on_bind f c = record c { binds = modify_last f c.binds }

unfoldable pub on_site : (Site → Site) → Config → Config
unfolding on_bind
on_site f = on_bind λ b. record b { sites = modify_last f b.sites }

unfoldable pub on_handler : (Handler → Handler) → Config → Config
unfolding on_site
on_handler f = on_site λ s. record s { handlers = modify_last f s.handlers }

abbrev pub get_last? : {A : Type 0} → List A → Option A
get_last? [] = none
get_last? (x ∷ []) = some x
get_last? (x ∷ y ∷ xs) = get_last? (y ∷ xs)

-- The settings of the current bind and the type of the current handler, as the parser reads them.
unfoldable pub current_ssl : Config → Option SslSettings
current_ssl c = elim (get_last? c.binds) [ none ↦ none | some b ↦ b.ssl ]

unfoldable pub last_handler : Option Bind → Option Handler
last_handler none = none
last_handler (some b) = elim (get_last? b.sites) [ none ↦ none | some s ↦ get_last? s.handlers ]

unfoldable pub current_type : Config → Option HandlerType
unfolding last_handler
current_type c = elim (last_handler (get_last? c.binds)) [ none ↦ none | some h ↦ h.type ]
