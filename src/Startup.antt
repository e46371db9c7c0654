-- ===== src/Startup.antt =====
-- src/config.c, `config_setLogging`: the loggers that a configuration asks for.
mod Loggers
pub mod Binds
pub mod Found
mod Tests
use cfloor.Base.{ℕ, Bool, true, false, Option, none, some, List, Bytes}
use cfloor.Logging.{Logger, set_logging, http_access}
use cfloor.Config.{LogSettings}

-- The streams that the calls of `fopen` return for the two files; a stream is a number.
pub record Streams : Type 0 where
  pub stdout : ℕ
  pub server : Bytes → Option ℕ
  pub access : Bytes → Option ℕ

-- A file that cannot be opened is reported and left out.
unfoldable pub log_to : Option ℕ → ℕ → List Logger → List Logger
log_to none level ls = ls
log_to (some file) level ls = set_logging file level false ls

abbrev pub opened : (Bytes → Option ℕ) → Option Bytes → Option ℕ
opened fopen none = none
opened fopen (some name) = fopen name

unfoldable pub config_set_logging : Streams → LogSettings → List Logger → List Logger
config_set_logging f s ls =
    let first = set_logging f.stdout s.server_verbosity true ls in
    let second = log_to (opened f.server s.server_logfile) s.server_verbosity first in
    log_to (opened f.access s.access_logfile) http_access second
