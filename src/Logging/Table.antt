-- ===== src/Logging/Table.antt =====
-- The table of loggers: how many there are, and who gets which message.
use cfloor.Base.{
  ℕ, ◌+◌, ◌-◌, ◌≤◌, ◌<◌, ◌≡◌, ◌↔◌, refl, inl, inr, Bool, true, Option, none, some, Option-cases,
  List, [], ◌∷◌, ◌++◌, length, length-append, if◌then◌else◌, ◌==◌, arith,
}
use cfloor.Logging.{custom_loglevel_offset, max_logger, Logger, replace_logger, set_logging, takes}

-- The logger of a file.
pub logger_of : ℕ → List Logger → Option Logger
logger_of f [] = none
logger_of f (l ∷ ls) = if l.file == f then some l else logger_of f ls

length-replace_logger :
    (f level : ℕ) (c : Bool) (ls ls' : List Logger)
    → replace_logger f level c ls ≡ some ls'
    → length ls' ≡ length ls
unfolding replace_logger
length-replace_logger f level c [] ls' e = ground arith
length-replace_logger f level c (l ∷ ls) ls' e = elim (Option-cases (replace_logger f level c ls)) [
  | inl n ↦ ground arith
  | inr (r, n) ↦ ground (arith, length-replace_logger f level c ls r)
]

logger_of-replace_logger :
    (f level : ℕ) (c : Bool) (ls ls' : List Logger) (g : ℕ)
    → replace_logger f level c ls ≡ some ls'
    → logger_of g ls'
      ≡ (if f == g then some (record { file = f; loglevel = level; color = c }) else logger_of g ls)
unfolding replace_logger logger_of
logger_of-replace_logger f level c [] ls' g e = ground arith
logger_of-replace_logger f level c (l ∷ ls) ls' g e =
    elim (Option-cases (replace_logger f level c ls)) [
      | inl n ↦ ground arith
      | inr (r, n) ↦ ground (arith, logger_of-replace_logger f level c ls r g)
    ]

replace_logger-none :
    (f level : ℕ) (c : Bool) (ls : List Logger) (g : ℕ)
    → replace_logger f level c ls ≡ none
    → logger_of g (ls ++ (record { file = f; loglevel = level; color = c } ∷ []))
      ≡ (if f == g then some (record { file = f; loglevel = level; color = c }) else logger_of g ls)
unfolding replace_logger logger_of
replace_logger-none f level c [] g e = refl
replace_logger-none f level c (l ∷ ls) g e = ground (arith, replace_logger-none f level c ls g)

-- While fewer than nine loggers are set, `setLogging` gives the file the level and the colour, new
-- or not, and leaves every other file's logger alone.
pub logger_of-set_logging :
    (f level : ℕ) (c : Bool) (ls : List Logger) (g : ℕ)
    → length ls < max_logger - 1
    → logger_of g (set_logging f level c ls)
      ≡ (if f == g then some (record { file = f; loglevel = level; color = c }) else logger_of g ls)
unfolding set_logging
logger_of-set_logging f level c ls g h = elim (Option-cases (replace_logger f level c ls)) [
  | inl n ↦ ground (arith, replace_logger-none f level c ls g n)
  | inr (r, n) ↦ ground (arith, logger_of-replace_logger f level c ls r g n)
]

pub set_logging_grows :
    (f level : ℕ) (c : Bool) (ls : List Logger) → length (set_logging f level c ls) ≤ length ls + 1
unfolding set_logging
set_logging_grows f level c ls = elim (Option-cases (replace_logger f level c ls)) [
  | inl n ↦ ground (arith, length-append ls (record { file = f; loglevel = level; color = c } ∷ []))
  | inr (r, n) ↦ ground (arith, length-replace_logger f level c ls r n)
]

-- The table of ten loggers is never written behind its end: from at most nine loggers
-- `setLogging` makes at most nine, and with nine it changes nothing, the level of a known file
-- included.
pub set_logging_bounds :
    (f level : ℕ) (c : Bool) (ls : List Logger)
    → length ls ≤ max_logger - 1
    → (length (set_logging f level c ls) ≤ max_logger - 1)
      × (length ls ≡ max_logger - 1 → set_logging f level c ls ≡ ls)
unfolding set_logging
set_logging_bounds f level c ls h = elim (Option-cases (replace_logger f level c ls)) [
  | inl n ↦ (
    ground (arith, length-append ls (record { file = f; loglevel = level; color = c } ∷ [])),
    λ e. ground arith,
  )
  | inr (r, n) ↦ (ground (arith, length-replace_logger f level c ls r n), λ e. ground arith)
]

-- A message goes to a logger below the custom levels if it is itself below them and not below the
-- logger's level, and to a logger of a custom level if its level is the same.
pub takes_iff :
    (level : ℕ) (l : Logger)
    → (l.loglevel < custom_loglevel_offset
        → (takes level l ≡ true) ↔ ((l.loglevel ≤ level) × (level < custom_loglevel_offset)))
      × (custom_loglevel_offset ≤ l.loglevel → (takes level l ≡ true) ↔ (level ≡ l.loglevel))
unfolding takes
takes_iff level l = (λ h. ground arith, λ h. ground arith)
