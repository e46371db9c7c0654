-- ===== src/Startup/Loggers.antt =====
-- src/config.c: what `config_setLogging` makes of the loggers.
use cfloor.Base.{
  ℕ, ◌+◌, ◌-◌, ◌≤◌, ◌<◌, ◌≡◌, refl, ◌∙◌, true, false, Option, none, some, List, length, ◌==◌,
  ==_refl, arith,
}
use cfloor.Logging.{Logger, set_logging, http_access, max_logger}
use cfloor.Logging.Table.{logger_of, logger_of-set_logging, set_logging_grows}
use cfloor.Config.{LogSettings}
use cfloor.Startup.{Streams, log_to, opened, config_set_logging}

log_to-kept :
    (o : Option ℕ) (level : ℕ) (ls : List Logger) (g : ℕ)
    → length ls < max_logger - 1
    → ((file : ℕ) → o ≡ some file → (file == g) ≡ false)
    → logger_of g (log_to o level ls) ≡ logger_of g ls
unfolding log_to
log_to-kept none level ls g h d = refl
log_to-kept (some file) level ls g h d =
    logger_of-set_logging file level false ls g h ∙ rw (d file refl) refl

log_to_grows :
    (o : Option ℕ) (level : ℕ) (ls : List Logger) → length (log_to o level ls) ≤ length ls + 1
unfolding log_to
log_to_grows none level ls = omega arith
log_to_grows (some file) level ls = set_logging_grows file level false ls

-- With room for three more loggers, and files that are opened as streams of their own: standard
-- output and the server's file get every message from the verbosity on, and the file for accesses
-- gets the level of accesses.
pub config_set_logging-loggers :
    (f : Streams) (s : LogSettings) (ls : List Logger) (server access : ℕ)
    → length ls + 3 < max_logger
    → opened f.server s.server_logfile ≡ some server
    → opened f.access s.access_logfile ≡ some access
    → (server == f.stdout) ≡ false
    → (access == f.stdout) ≡ false
    → (access == server) ≡ false
    → (logger_of f.stdout (config_set_logging f s ls)
        ≡ some (record { file = f.stdout; loglevel = s.server_verbosity; color = true }))
      × (logger_of server (config_set_logging f s ls)
          ≡ some (record { file = server; loglevel = s.server_verbosity; color = false }))
      × (logger_of access (config_set_logging f s ls)
          ≡ some (record { file = access; loglevel = http_access; color = false }))
unfolding config_set_logging log_to
config_set_logging-loggers f s ls server access h es ea ss as_ a_s =
    let first : List Logger = set_logging f.stdout s.server_verbosity true ls in
    let second : List Logger = set_logging server s.server_verbosity false first in
    let l1 : length first ≤ length ls + 1 = set_logging_grows f.stdout s.server_verbosity true ls in
    let l2 : length second ≤ length first + 1 =
      set_logging_grows server s.server_verbosity false first in
    rw (es, ea)
      (
        logger_of-set_logging access http_access false second f.stdout (omega arith)
            ∙ rw as_ (
                logger_of-set_logging server s.server_verbosity false first f.stdout (omega arith)
                ∙ rw ss (
                    logger_of-set_logging f.stdout s.server_verbosity true ls f.stdout (omega arith)
                    ∙ rw (==_refl f.stdout) refl)),
        logger_of-set_logging access http_access false second server (omega arith)
            ∙ rw a_s (
                logger_of-set_logging server s.server_verbosity false first server (omega arith)
                ∙ rw (==_refl server) refl),
        logger_of-set_logging access http_access false second access (omega arith)
            ∙ rw (==_refl access) refl,
      )
