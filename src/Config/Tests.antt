-- ===== src/Config/Tests.antt =====
-- `config_parse` of src/config.c on a small file, and its theorems at it.
use cfloor.Base.{
  false, All, map, ◌≡◌, refl, true, err, some, none, [], ◌∷◌, ok, Bytes, codes, c_string, equal,
  Ensures,
}
use cfloor.Logging.{default_loglevel}
use cfloor.Config.{Config, Surroundings, file_handler, on_handler, unexpected_eof}
use cfloor.Headers.{modify, store, find}
use cfloor.Headers.Field.{split_colon}
use cfloor.Config.Switch.{switch}
use cfloor.Config.Tokens.{
  expect, at_root, bind_to, bind_to_parts, at_bind_value, open_site, at_bind_content,
}
use cfloor.Config.Inner.{
  open_handler, at_site_content, set_real_root, at_site_root_value, at_handler_value,
  at_handler_content, at_type_value,
}
use cfloor.Config.Validate.{
  finish_handler, finish_root, finish_sites, check_ssl, finish_bind, finish_binds, finish,
}
use cfloor.Config.Reader.{read_byte, read_bytes, first_reader, config_parse}
use cfloor.Config.Shape.Parse.{
  IsReady, first_reader-IsReady, read_bytes-IsReady, config_parse-IsValid,
}
use cfloor.Routing.{Answer, get_handler}
use cfloor.Routing.Served.{IsServableAnswer, get_handler-config_parse}
use cfloor.Config.Valid.{IsValid}
use cfloor.Main.{
  config_option, parse_options, parse_arguments, serves, first_loggers, server_string, main,
}
use cfloor.Startup.{Streams, config_set_logging}
use cfloor.Startup.Binds.{NetworkingConfig, to_listen, config_get_networking_config}
use cfloor.Startup.Found.{IsFound, config_get_networking_config-IsFound}

-- Every path is a real path, and OpenSSL takes every file.
abbrev here : Surroundings
here = record { ssl_support = true; realpath = λ p. some p; ssl_init = λ k c. true }

abbrev small : Bytes
small = codes "bind *:80 {\n site { root = /w handler / { type = file } } }\n"

abbrev small_config : Config
small_config = record {
  binds =
      record {
        addr = some (codes "0.0.0.0");
        port = some (codes "80");
        ssl = none;
        sites =
            record {
              hostnames = [];
              document_root = some (codes "/w");
              handlers =
                  record {
                    dir = some (codes "/");
                    type = some file_handler;
                    handler = some file_handler;
                    document_root = some (codes "/w");
                    index_files = [];
                  }
                  ∷ [];
            }
            ∷ [];
      }
      ∷ [];
  logging = record {
    access_logfile = none;
    server_logfile = none;
    server_verbosity = default_loglevel;
  };
}

parsed : config_parse here small [] ≡ (ok small_config, [])
unfolding config_parse read_bytes read_byte switch at_root at_bind_value bind_to_parts bind_to
    expect at_bind_content open_site at_site_content at_site_root_value set_real_root open_handler
    at_handler_value at_handler_content at_type_value finish finish_binds finish_bind check_ssl
    finish_sites finish_root finish_handler c_string equal split_colon on_handler
parsed = refl

-- A bracket that is not closed.
unclosed : config_parse here (codes "bind *:80 {\n") [] ≡ (err unexpected_eof, [])
unfolding config_parse read_bytes read_byte switch at_root at_bind_value bind_to_parts bind_to
    expect c_string equal split_colon
unclosed = refl

read_bytes-IsReady_example : Ensures IsReady (read_bytes here first_reader small)
read_bytes-IsReady_example = read_bytes-IsReady here first_reader small first_reader-IsReady

config_parse-IsValid_example : Ensures (IsValid here) (config_parse here small)
config_parse-IsValid_example = config_parse-IsValid here small

get_handler-config_parse_example :
    (a : Answer) × (get_handler small_config
        (codes "/x")
        (some (codes "a.org"))
        (codes "0.0.0.0")
        (codes "80")
      ≡ some a)
    × IsServableAnswer a
get_handler-config_parse_example =
    get_handler-config_parse here small [] [] small_config (codes "/x") (codes "a.org")
      (codes "0.0.0.0") (codes "80") parsed

abbrev listened : NetworkingConfig
listened = record {
  binds = map (to_listen true small_config) small_config.binds;
  max_connections = 1024;
  connection_timeout = 30000;
  default_headers = [];
}

listens : config_get_networking_config true small_config [] ≡ (ok listened, [])
unfolding config_get_networking_config
listens = refl

config_get_networking_config-IsFound_example : All (IsFound small_config.binds) listened.binds
config_get_networking_config-IsFound_example =
    config_get_networking_config-IsFound here small [] [] [] [] small_config true listened parsed
      listens

abbrev streams : Streams
streams = record { stdout = 1; server = λ n. none; access = λ n. none }

started :
    main here streams (λ n. some small) (config_option (codes "f") ∷ []) false []
    ≡ serves small_config
        (record listened {
          default_headers = record { key = codes "Server"; value = server_string } ∷ [];
        })
        (config_set_logging streams small_config.logging (first_loggers streams))
unfolding main parse_arguments parse_options config_get_networking_config modify store find
started = rw parsed
