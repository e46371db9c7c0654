-- ===== src/Base/Outcomes.antt =====
-- Fallible code that allocates. The heap itself is not modelled; whether each allocation in turn
-- succeeds is, as a list of outcomes. Where the list ends every later allocation succeeds.
use mathlib.Core.Bool.{Bool, true, false}
use mathlib.Core.List.{List, [], ◌∷◌}

abbrev pub Memory : Type 0
Memory = List Bool

pub data Result {ℓ κ} (E : Type ℓ) (A : Type κ) : Type (ℓ ⊔ κ) where
  ok : A → Result E A
  err : E → Result E A

abbrev pub Alloc : Type 0 → Type 0 → Type 0
Alloc E A = Memory → Result E A × Memory

module _ {E A B : Type 0} where
  -- What follows a step, given its outcome.
  abbrev pub resume : Result E A × Memory → (A → Alloc E B) → Result E B × Memory
  resume (ok a, h) f = f a h
  resume (err e, h) f = (err e, h)

  infixl 5 ◌>>=◌
  abbrev pub ◌>>=◌ : Alloc E A → (A → Alloc E B) → Alloc E B
  ◌>>=◌ m f h = resume (m h) f

module _ {E B : Type 0} where
  infixl 5 ◌>>◌
  abbrev pub ◌>>◌ : Alloc E (Unit {0}) → Alloc E B → Alloc E B
  m >> k = m >>= λ _. k

abbrev pub return : {E A : Type 0} → A → Alloc E A
return a h = (ok a, h)

abbrev pub fail : {E A : Type 0} → E → Alloc E A
fail e h = (err e, h)

-- One `malloc`, `realloc` or `strdup`, and the error that a NULL leads to.
abbrev pub allocate : {E : Type 0} → E → Alloc E (Unit {0})
allocate e [] = (ok tt, [])
allocate e (true ∷ h) = (ok tt, h)
allocate e (false ∷ h) = (err e, h)
