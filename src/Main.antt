-- ===== src/Main.antt =====
-- src/main.c: from the command line to the configuration that src/networking.c is started with.
pub mod Served
mod Tests
use cfloor.Base.{
  ℕ, Bool, true, false, Option, none, some, List, [], ◌∷◌, Bytes, codes, Memory, Result, ok, err,
}
use cfloor.Headers.{Headers, HeadersError, modify}
use cfloor.Logging.{Logger, set_logging, error}
use cfloor.Config.{Config, ConfigError, Surroundings}
use cfloor.Config.Reader.{config_parse}
use cfloor.Startup.{Streams, config_set_logging}
use cfloor.Startup.Binds.{NetworkingConfig, config_get_networking_config}

-- What `getopt` returns for one option.
pub data Opt : Type 0 where
  config_option : Bytes → Opt
  other_option : Opt

-- The loop over the options; `none` for one that is not known.
unfoldable pub parse_options : List Opt → Option Bytes → Option (Option Bytes)
parse_options [] file = some file
parse_options (config_option name ∷ opts) file = parse_options opts (some name)
parse_options (other_option ∷ opts) file = none

abbrev pub named_file : Bool → Option (Option Bytes) → Option Bytes
named_file operands none = none
named_file true (some file) = none
named_file false (some file) = file

-- The name of the file, or the failure -1. `operands`: something stands behind the options.
unfoldable pub parse_arguments : List Opt → Bool → Option Bytes
parse_arguments opts operands = named_file operands (parse_options opts none)

-- The call of shutdownHandler, or of networking_init.
pub data Outcome : Type 0 where
  shut_down : Outcome
  serves : Config → NetworkingConfig → List Logger → Outcome

abbrev pub server_string : Bytes
server_string = codes "CFloor V0.1"

-- A failed headers_mod is ignored.
abbrev pub add_server :
    NetworkingConfig → Result HeadersError (ℕ × Headers) × Memory → NetworkingConfig
add_server n (ok (i, hs), h) = record n { default_headers = hs }
add_server n (err e, h) = n

abbrev pub with_network :
    Config → List Logger → Result (Unit {0}) NetworkingConfig × Memory → Outcome
with_network c ls (err e, h) = shut_down
with_network c ls (ok n, h) =
    serves c (add_server n (modify n.default_headers (codes "Server") server_string h)) ls

abbrev pub with_config :
    Surroundings → Streams → List Logger → Result ConfigError Config × Memory → Outcome
with_config w f ls (err e, h) = shut_down
with_config w f ls (ok c, h) =
    with_network c (config_set_logging f c.logging ls)
      (config_get_networking_config w.ssl_support c h)

abbrev pub with_file : Surroundings → Streams → List Logger → Option Bytes → Memory → Outcome
with_file w f ls none h = shut_down
with_file w f ls (some text) h = with_config w f ls (config_parse w text h)

abbrev pub with_name :
    Surroundings → Streams → (Bytes → Option Bytes) → List Logger → Option Bytes → Memory → Outcome
with_name w f fopen ls none h = shut_down
with_name w f fopen ls (some name) h = with_file w f ls (fopen name) h

-- The logger that `setup` sets.
abbrev pub first_loggers : Streams → List Logger
first_loggers f = set_logging f.stdout error true []

-- `fopen` gives the text of the configuration file.
unfoldable pub main :
    Surroundings → Streams → (Bytes → Option Bytes) → List Opt → Bool → Memory → Outcome
main w f fopen opts operands h =
    with_name w f fopen (first_loggers f) (parse_arguments opts operands) h
