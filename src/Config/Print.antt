-- ===== src/Config/Print.antt =====
-- The grammar of the configuration file, as the README gives it: a configuration as it is meant,
-- and the text that stands for it, which `config_parse` of src/config.c is to read.
pub mod Run
pub mod Words
mod Sections
mod Inside
mod Binds
mod Logs
mod Tests
pub mod RoundTrip
use Prim.Native.String.{String}
use cfloor.Base.{
  ℕ, Bool, true, false, Option, none, some, List, [], ◌∷◌, ◌++◌, Bytes, codes, equal, map,
  if◌then◌else◌,
}
use cfloor.Config.{
  HandlerType, file_handler, cgi_handler, Handler, Site, SslSettings, Bind, LogSettings, Config,
}

pub record HandlerPlan : Type 0 where
  pub dir : Bytes
  pub type : HandlerType
  pub index : List Bytes

pub record SitePlan : Type 0 where
  pub hostnames : List Bytes
  pub root : Bytes
  pub handlers : List HandlerPlan

pub record BindPlan : Type 0 where
  pub addr : Bytes
  pub port : Bytes
  pub ssl : Option (Bytes × Bytes)
  pub sites : List SitePlan

-- A setting is a key, "=" and a value.
abbrev pub setting : String → Bytes → List Bytes → List Bytes
setting key value rest = codes key ∷ codes "=" ∷ value ∷ rest

abbrev pub settings : String → List Bytes → List Bytes → List Bytes
settings key [] rest = rest
settings key (v ∷ vs) rest = setting key v (settings key vs rest)

abbrev pub type_name : HandlerType → Bytes
type_name file_handler = codes "file"
type_name cgi_handler = codes "cgi"

-- The words of a configuration, in front of the words `rest`.
abbrev pub handler_words : HandlerPlan → List Bytes → List Bytes
handler_words h rest =
    codes "handler"
    ∷ h.dir
    ∷ codes "{"
    ∷ setting "type" (type_name h.type) (settings "index" h.index (codes "}" ∷ rest))

abbrev pub handlers_words : List HandlerPlan → List Bytes → List Bytes
handlers_words [] rest = rest
handlers_words (h ∷ hs) rest = handler_words h (handlers_words hs rest)

abbrev pub site_words : SitePlan → List Bytes → List Bytes
site_words s rest =
    codes "site"
    ∷ codes "{"
    ∷ settings "hostname" s.hostnames
        (setting "root" s.root (handlers_words s.handlers (codes "}" ∷ rest)))

abbrev pub sites_words : List SitePlan → List Bytes → List Bytes
sites_words [] rest = rest
sites_words (s ∷ ss) rest = site_words s (sites_words ss rest)

abbrev pub ssl_words : Option (Bytes × Bytes) → List Bytes → List Bytes
ssl_words none rest = rest
ssl_words (some (key, cert)) rest =
    codes "ssl" ∷ codes "{" ∷ setting "key" key (setting "cert" cert (codes "}" ∷ rest))

abbrev pub bind_words : BindPlan → List Bytes → List Bytes
bind_words b rest =
    codes "bind"
    ∷ (b.addr ++ (b':' ∷ b.port))
    ∷ codes "{"
    ∷ ssl_words b.ssl (sites_words b.sites (codes "}" ∷ rest))

abbrev pub binds_words : List BindPlan → List Bytes → List Bytes
binds_words [] rest = rest
binds_words (b ∷ bs) rest = bind_words b (binds_words bs rest)

pub record LogPlan : Type 0 where
  pub access : Option Bytes
  pub server : Option Bytes
  pub verbosity : Option Bytes

abbrev pub set_if : String → Option Bytes → List Bytes → List Bytes
set_if key none rest = rest
set_if key (some v) rest = setting key v rest

abbrev pub logging_words : LogPlan → List Bytes → List Bytes
logging_words p rest =
    codes "logging"
    ∷ codes "{"
    ∷ set_if "access" p.access
        (set_if "server" p.server (set_if "verbosity" p.verbosity (codes "}" ∷ rest)))

-- What a plan stands for once it has been read.
abbrev pub handler_of : HandlerPlan → Handler
handler_of h = record {
  dir = some h.dir;
  type = some h.type;
  handler = none;
  document_root = none;
  index_files = h.index;
}

abbrev pub ssl_of : Option (Bytes × Bytes) → Option SslSettings
ssl_of none = none
ssl_of (some (key, cert)) = some (record { private_key = some key; certificate = some cert })

abbrev pub host_of : Bytes → Bytes
host_of addr = if equal addr (codes "*") then codes "0.0.0.0" else addr

-- `real` gives the real paths of the document roots.
module _ (real : Bytes → Bytes) where
  abbrev pub site_of : SitePlan → Site
  site_of s = record {
    hostnames = s.hostnames;
    document_root = some (real s.root);
    handlers = map handler_of s.handlers;
  }

  abbrev pub bind_of : BindPlan → Bind
  bind_of b = record {
    addr = some (host_of b.addr);
    port = some b.port;
    ssl = ssl_of b.ssl;
    sites = map site_of b.sites;
  }

-- Each word with a space behind it.
abbrev pub text : List Bytes → Bytes
text [] = []
text (t ∷ ts) = t ++ (b' ' ∷ text ts)
