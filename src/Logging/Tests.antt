-- ===== src/Logging/Tests.antt =====
-- src/logging.c at concrete loggers.
use cfloor.Base.{◌≡◌, refl, true, false, [], ◌∷◌}
use cfloor.Logging.{Logger, set_logging}

abbrev standard : Logger
standard = record { file = 1; loglevel = 20; color = true }

abbrev quiet : Logger
quiet = record { file = 1; loglevel = 40; color = false }

replaced : set_logging 1 40 false (standard ∷ []) ≡ quiet ∷ []
unfolding set_logging
replaced = refl
