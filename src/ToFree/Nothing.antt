-- ===== src/ToFree/Nothing.antt =====
-- src/config.c: what the pointers to be freed come to.
use cfloor.Base.{ℕ, ◌≡◌, refl, ◌∙◌, Option-cases, inl, inr, List, [], ◌∷◌, arith}
use cfloor.ToFree.{ToFree, replace_old, replace_or_add, free_everything}

-- Calls of `replaceOrAdd`, each with the old pointer and the new one.
unfoldable pub replay : List (ℕ × ℕ) → ToFree → ToFree
replay [] t = t
replay ((old, new) ∷ calls) t = replay calls (replace_or_add t old new)

length-replace_or_add : (t : ToFree) (old new : ℕ) → (replace_or_add t old new).length ≡ t.length
unfolding replace_or_add
length-replace_or_add t old new = elim (Option-cases (replace_old t.array t.length old new)) [
  | inl n ↦ ground arith
  | inr (a, s) ↦ ground arith
]

length-replay : (calls : List (ℕ × ℕ)) (t : ToFree) → (replay calls t).length ≡ t.length
unfolding replay
length-replay [] t = refl
length-replay ((old, new) ∷ calls) t =
    length-replay calls (replace_or_add t old new) ∙ length-replace_or_add t old new

-- However often `replaceOrAdd` is called on an empty list of pointers, and with whatever pointers,
-- `freeEverything` frees none of them.
pub free_everything-replay :
    (calls : List (ℕ × ℕ)) (array : List ℕ)
    → free_everything (replay calls (record { array = array; length = 0 })) ≡ []
unfolding free_everything
free_everything-replay calls array =
    rw (length-replay calls (record { array = array; length = 0 })) refl
