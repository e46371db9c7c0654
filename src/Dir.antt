-- ===== src/Dir.antt =====
-- src/util.c, `isInDir`: does a path lie in a directory, whose name may end with a slash?
pub mod Inside
mod Tests
use cfloor.Base.{
  ℕ, zero, suc, ◌-◌, Bool, true, false, ◌||◌, Option, none, some, List, [], ◌∷◌, ◌++◌, Bytes,
  length, take, strip_prefix, if◌then◌else◌, ◌==◌,
}

abbrev pub last_byte : ℕ → Bytes → ℕ
last_byte c [] = c
last_byte c (x ∷ xs) = last_byte x xs

-- The name up to `length`. `none`: for the empty name the code reads the byte in front of it.
unfoldable pub base_of : Bytes → Option Bytes
base_of [] = none
base_of (c ∷ cs) =
    some (if last_byte c cs == b'/' then take (length (c ∷ cs) - 1) (c ∷ cs) else c ∷ cs)

-- `file[length]` is the terminator or a slash.
unfoldable pub ends_here : Bytes → Bool
ends_here [] = true
ends_here (c ∷ cs) = c == 0 || c == b'/'

unfoldable pub in_base : Bytes → Bytes → Bool
unfolding ends_here strip_prefix
in_base file base = elim (strip_prefix base file) [ none ↦ false | some rest ↦ ends_here rest ]

unfoldable pub is_in_dir : Bytes → Bytes → Option Bool
unfolding base_of in_base
is_in_dir file dir = elim (base_of dir) [ none ↦ none | some base ↦ some (in_base file base) ]
