-- ===== src/ToFree.antt =====
-- src/config.c, `replaceOrAdd` and `freeEverything`: the pointers that are to be freed when parsing
-- fails. A pointer is a number.
mod Nothing
use cfloor.Base.{ℕ, zero, suc, Option, none, some, List, [], ◌∷◌, set, take, if◌then◌else◌, ◌==◌}

pub record ToFree : Type 0 where
  pub array : List ℕ
  pub length : ℕ

-- The loop over the first `length` entries.
unfoldable pub replace_old : List ℕ → ℕ → ℕ → ℕ → Option (List ℕ)
replace_old [] length old new = none
replace_old (x ∷ xs) zero old new = none
replace_old (x ∷ xs) (suc length) old new =
    let rest = replace_old xs length old new in
    if x == old then some (new ∷ xs) else elim rest [ none ↦ none | some ys ↦ some (x ∷ ys) ]

-- `array[*length++] = new` writes the entry and moves the pointer `length`, which is local; the
-- counter that it points to stays as it is.
unfoldable pub replace_or_add : ToFree → ℕ → ℕ → ToFree
replace_or_add t old new = elim (replace_old t.array t.length old new) [
  | some a ↦ record t { array = a }
  | none ↦ record t { array = set t.array t.length new }
]

-- The pointers that are freed.
unfoldable pub free_everything : ToFree → List ℕ
free_everything t = take t.length t.array
