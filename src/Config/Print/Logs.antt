-- ===== src/Config/Print/Logs.antt =====
-- src/config.c, `config_parse` on the words of the logging section.
use cfloor.Base.{
  ℕ, ◌≡◌, refl, sym, ap, ◌∙◌, Option, none, some, List, [], ◌∷◌, Bytes, codes, equal, Result,
  Memory,
}
use cfloor.Logging.{strtologlevel}
use cfloor.Config.{Bind, LogSettings, State, ConfigError, Surroundings, Machine}
use cfloor.Config.Switch.{switch}
use cfloor.Config.Tokens.{expect, at_root}
use cfloor.Config.Inner.{
  at_logging_content, at_access_file_value, at_server_file_value, at_verbosity_value, set_level,
}
use cfloor.Config.Print.{LogPlan, set_if, logging_words}
use cfloor.Config.Print.Run.{run}

-- The word for the verbosity is a level, and this is the level.
abbrev pub LevelFits : Option Bytes → ℕ → ℕ → Type 0
LevelFits none before level = level ≡ before
LevelFits (some word) before level = strtologlevel word ≡ some level

abbrev or_before : Option Bytes → Option Bytes → Option Bytes
or_before none before = before
or_before (some f) before = some f

module _ (w : Surroundings) (n : ℕ) (bs : List Bind) where
  abbrev from_logs :
      Option Bytes → Option Bytes → ℕ → List Bytes → Result ConfigError Machine × Memory
  from_logs a s v rest =
      run w n
        (record {
          binds = bs;
          logging = record { access_logfile = a; server_logfile = s; server_verbosity = v };
        })
        State.logging_content rest []

  read_access :
      (o a s : Option Bytes) (v : ℕ) (rest : List Bytes)
      → from_logs a s v (set_if "access" o rest) ≡ from_logs (or_before o a) s v rest
  unfolding run switch at_logging_content expect at_access_file_value equal
  read_access none a s v rest = refl
  read_access (some f) a s v rest = refl

  read_server :
      (o a s : Option Bytes) (v : ℕ) (rest : List Bytes)
      → from_logs a s v (set_if "server" o rest) ≡ from_logs a (or_before o s) v rest
  unfolding run switch at_logging_content expect at_server_file_value equal
  read_server none a s v rest = refl
  read_server (some f) a s v rest = refl

  read_verbosity :
      (o a s : Option Bytes) (v level : ℕ) (rest : List Bytes)
      → LevelFits o v level
      → from_logs a s v (set_if "verbosity" o rest) ≡ from_logs a s level rest
  unfolding run switch at_logging_content expect at_verbosity_value set_level equal
  read_verbosity none a s v level rest f = ap (λ l. from_logs a s l rest) (sym f)
  read_verbosity (some word) a s v level rest f = rw f refl

  open_logs :
      (l : LogSettings) (rest : List Bytes)
      → run w n
          (record { binds = bs; logging = l })
          State.root
          (codes "logging" ∷ codes "{" ∷ rest)
          []
        ≡ from_logs l.access_logfile l.server_logfile l.server_verbosity rest
  unfolding run switch at_root expect equal
  open_logs l rest = refl

  close_logs :
      (a s : Option Bytes) (v : ℕ) (rest : List Bytes)
      → from_logs a s v (codes "}" ∷ rest)
        ≡ run w n
            (record {
              binds = bs;
              logging = record { access_logfile = a; server_logfile = s; server_verbosity = v };
            })
            State.root
            rest
            []
  unfolding run switch at_logging_content equal
  close_logs a s v rest = refl

  or_none : (o : Option Bytes) → or_before o none ≡ o
  or_none none = refl
  or_none (some f) = refl

  -- The words of the logging section, with no file set before.
  pub read_logging :
      (p : LogPlan) (before level : ℕ) (rest : List Bytes)
      → LevelFits p.verbosity before level
      → run w n
          (record {
            binds = bs;
            logging = record {
              access_logfile = none;
              server_logfile = none;
              server_verbosity = before;
            };
          })
          State.root
          (logging_words p rest)
          []
        ≡ run w n
            (record {
              binds = bs;
              logging = record {
                access_logfile = p.access;
                server_logfile = p.server;
                server_verbosity = level;
              };
            })
            State.root
            rest
            []
  read_logging p before level rest f =
      let close : List Bytes = codes "}" ∷ rest in
      let verbosity : List Bytes = set_if "verbosity" p.verbosity close in
      open_logs (record { access_logfile = none; server_logfile = none; server_verbosity = before })
        (set_if "access" p.access (set_if "server" p.server verbosity))
      ∙ read_access p.access none none before (set_if "server" p.server verbosity)
      ∙ read_server p.server (or_before p.access none) none before verbosity
      ∙ read_verbosity p.verbosity (or_before p.access none) (or_before p.server none) before level
          close f
      ∙ close_logs (or_before p.access none) (or_before p.server none) level rest
      ∙ rw (or_none p.access, or_none p.server) refl
