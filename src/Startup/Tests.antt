-- ===== src/Startup/Tests.antt =====
-- `config_setLogging` of src/config.c with the logger that `config_parse` sets.
use cfloor.Base.{◌≡◌, refl, true, false, some, List, [], ◌∷◌, codes, arith}
use cfloor.Logging.{Logger, http_access, error}
use cfloor.Logging.Table.{logger_of}
use cfloor.Config.{LogSettings}
use cfloor.Startup.{Streams, config_set_logging}
use cfloor.Startup.Loggers.{config_set_logging-loggers}

abbrev streams : Streams
streams = record { stdout = 1; server = λ n. some 5; access = λ n. some 6 }

abbrev both : LogSettings
both = record {
  access_logfile = some (codes "access.log");
  server_logfile = some (codes "server.log");
  server_verbosity = 2;
}

abbrev parsing : List Logger
parsing = record { file = 1; loglevel = error; color = true } ∷ []

config_set_logging-loggers_example :
    (logger_of 1 (config_set_logging streams both parsing)
      ≡ some (record { file = 1; loglevel = 2; color = true }))
    × (logger_of 5 (config_set_logging streams both parsing)
        ≡ some (record { file = 5; loglevel = 2; color = false }))
    × (logger_of 6 (config_set_logging streams both parsing)
        ≡ some (record { file = 6; loglevel = http_access; color = false }))
config_set_logging-loggers_example =
    config_set_logging-loggers streams both parsing 5 6 (omega arith) refl refl refl refl refl
