-- ===== src/Base/Ample.antt =====
-- Fallible code that has all the memory it asks for: the list of outcomes stays empty.
use mathlib.Core.List.{[]}
use mathlib.Core.Path.{◌≡◌}
use cfloor.Base.Outcomes.{Memory, Result, ok, err, Alloc, resume, ◌>>=◌}

module _ {E A : Type 0} where
  abbrev pub StaysAmple : Alloc E A → Type 0
  StaysAmple m = (m []).1 ≡ []

module _ {E A B : Type 0} where
  resume-ample :
      (r : Result E A × Memory) (f : A → Alloc E B)
      → r.1 ≡ []
      → ((a : A) → StaysAmple (f a))
      → (resume r f).1 ≡ []
  resume-ample (ok a, h) f p q = rw p (q a)
  resume-ample (err e, h) f p q = p

  pub StaysAmple-bind :
      (m : Alloc E A) (f : A → Alloc E B)
      → StaysAmple m
      → ((a : A) → StaysAmple (f a))
      → StaysAmple (m >>= f)
  StaysAmple-bind m f p q = resume-ample (m []) f p q
