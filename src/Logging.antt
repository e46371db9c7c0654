-- ===== src/Logging.antt =====
-- src/logging.c: the table of loggers, the choice of the loggers that a message goes to, and the
-- names of the levels. A level is a number; `none` stands for UNKNOWN, which is -1.
pub mod Table
mod Tests
use cfloor.Base.{
  ℕ, ◌+◌, ◌-◌, Bool, true, false, ◌&&◌, ◌||◌, Option, none, some, List, [], ◌∷◌, ◌++◌, Bytes, codes,
  equal_nocase, length, if◌then◌else◌, ltb, leb, ◌==◌, not,
}

abbrev pub debug : ℕ
debug = 0

abbrev pub verbose : ℕ
verbose = 1

abbrev pub info : ℕ
info = 2

abbrev pub warn : ℕ
warn = 3

abbrev pub error : ℕ
error = 4

abbrev pub critical : ℕ
critical = 5

abbrev pub custom_loglevel_offset : ℕ
custom_loglevel_offset = 128

-- HTTP_ACCESS of src/misc.h.
abbrev pub http_access : ℕ
http_access = custom_loglevel_offset + 0

abbrev pub default_loglevel : ℕ
default_loglevel = warn

abbrev pub max_logger : ℕ
max_logger = 10

unfoldable pub strtologlevel : Bytes → Option ℕ
strtologlevel string =
    if equal_nocase string (codes "debug")
    then some debug
    else if equal_nocase string (codes "info")
    then some info
    else if equal_nocase string (codes "warn")
    then some warn
    else if equal_nocase string (codes "error")
    then some error
    else if equal_nocase string (codes "critical")
    then some critical
    else none

-- A stream is named by a number.
pub record Logger : Type 0 where
  pub file : ℕ
  pub loglevel : ℕ
  pub color : Bool

-- The loop that looks for the file: `none` where no logger has it.
unfoldable pub replace_logger : ℕ → ℕ → Bool → List Logger → Option (List Logger)
replace_logger file level color [] = none
replace_logger file level color (l ∷ ls) =
    if l.file == file
    then some (record l { loglevel = level; color = color } ∷ ls)
    else elim (replace_logger file level color ls) [ none ↦ none | some ls' ↦ some (l ∷ ls') ]

-- `loggerCount` is the length of the list. At MAX_LOGGER - 1 loggers nothing is changed any more,
-- known files included.
unfoldable pub set_logging : ℕ → ℕ → Bool → List Logger → List Logger
unfolding replace_logger
set_logging file level color ls =
    if length ls == max_logger - 1 then ls else elim (replace_logger file level color ls) [
      | some ls' ↦ ls'
      | none ↦ ls ++ (record { file = file; loglevel = level; color = color } ∷ [])
    ]

-- The tests with which the loop of `vlogging` passes over a logger.
unfoldable pub takes : ℕ → Logger → Bool
takes level l =
    if ltb level l.loglevel
    then false
    else if leb custom_loglevel_offset l.loglevel
    then level == l.loglevel
    else not (leb custom_loglevel_offset level)

-- The files that a message is written to, in order.
unfoldable pub receivers : ℕ → List Logger → List ℕ
unfolding takes
receivers level [] = []
receivers level (l ∷ ls) =
    let rest = receivers level ls in if takes level l then l.file ∷ rest else rest

-- The name of a level as it is printed, the colour codes around it if `color` is set.
unfoldable pub level_name : ℕ → Bytes
level_name level =
    if level == debug
    then codes "[DEBUG]"
    else if level == verbose
    then codes "[VERBOSE]"
    else if level == info
    then codes "[INFO]"
    else if level == warn
    then codes "[WARNING]"
    else if level == error
    then codes "[ERROR]"
    else if level == critical
    then codes "[CRITICAL]"
    else if leb custom_loglevel_offset level
    then []
    else codes "[UNKNOWN]"

abbrev escape : Bytes → Bytes
escape code = 27 ∷ b'[' ∷ (code ++ codes "m")

unfoldable pub level_color : ℕ → Bytes
level_color level =
    if level == debug
    then escape (codes "37")
    else if level == verbose
    then escape (codes "35")
    else if level == info
    then escape (codes "36")
    else if level == warn
    then escape (codes "33")
    else if level == error
    then escape (codes "31")
    else if level == critical
    then escape (codes "41") ++ escape (codes "30")
    else if leb custom_loglevel_offset level
    then escape (codes "37")
    else escape (codes "41") ++ escape (codes "30")

unfoldable pub get_loglevel_string : ℕ → Bool → Bytes
unfolding level_name level_color
get_loglevel_string level color =
    if color
    then level_color level ++ (level_name level ++ escape (codes "0"))
    else level_name level
