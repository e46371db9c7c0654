-- ===== src/Main/Tests.antt =====
-- Command lines of src/main.c.
use cfloor.Base.{◌≡◌, refl, true, false, none, some, [], ◌∷◌, codes}
use cfloor.Main.{config_option, other_option, parse_options, parse_arguments}

-- The last file counts.
last_file :
    parse_arguments (config_option (codes "a") ∷ config_option (codes "b") ∷ []) false
    ≡ some (codes "b")
unfolding parse_arguments parse_options
last_file = refl

operand : parse_arguments (config_option (codes "a") ∷ []) true ≡ none
unfolding parse_arguments parse_options
operand = refl

unknown : parse_arguments (config_option (codes "a") ∷ other_option ∷ []) false ≡ none
unfolding parse_arguments parse_options
unknown = refl
