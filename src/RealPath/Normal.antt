-- ===== src/RealPath/Normal.antt =====
-- `symbolicRealpath` against the usual reading of a path: a stack of directories, where "." does
-- nothing and ".." takes the top away.
pub mod Loop
pub mod Dots
pub mod Whole
use cfloor.Base.{
  ℕ, zero, suc, ◌+◌, ◌-◌, ◌≤◌, ◌<◌, ◌≡◌, ◌≢◌, refl, ap, sym, ◌∙◌, ◌⊎◌, inl, inr, Bool, true, false,
  ◌&&◌, Option, none, some, List, [], ◌∷◌, ◌++◌, Bytes, codes, length, length-append, take-append,
  drop-append, get_elem?, take, drop, Option-cases, Bool-cases, if◌then◌else◌, ltb, ◌==◌, arith,
  has, append_assoc, append-nil, equal, equal_iff,
}

-- The directories of a stack, the top one last.
abbrev pub path_of : List Bytes → Bytes
path_of [] = []
path_of (t ∷ st) = path_of st ++ (b'/' ∷ t)

-- Each name with the slash behind it.
abbrev pub names : List Bytes → Bytes
names [] = []
names (n ∷ ns) = n ++ (b'/' ∷ names ns)

-- One name of a path; `none`: it climbs above the root.
unfoldable pub enter : List Bytes → Bytes → Option (List Bytes)
enter st n =
    if equal n (b'.' ∷ [])
    then some st
    else if equal n (b'.' ∷ b'.' ∷ [])
    then elim st [ [] ↦ none | t ∷ below ↦ some below ]
    else some (n ∷ st)

unfoldable pub resolve : List Bytes → List Bytes → Option (List Bytes)
resolve st [] = some st
resolve st (n ∷ ns) = elim (enter st n) [ none ↦ none | some st' ↦ resolve st' ns ]

abbrev pub IsName : Bytes → Type 0
IsName n = (n ≢ []) × (has b'/' n ≡ false)

abbrev pub AllNames : List Bytes → Type 0
AllNames [] = Unit {0}
AllNames (n ∷ ns) = IsName n × AllNames ns
