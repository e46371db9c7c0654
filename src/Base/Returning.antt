-- ===== src/Base/Returning.antt =====
-- What fallible code ensures of the value that it returns, whatever the memory allows.
use mathlib.Core.Bool.{Bool, true, false}
use mathlib.Core.List.{[], ◌∷◌}
use mathlib.Core.Path.{◌≡◌}
use cfloor.Base.Tests.{if◌then◌else◌}
use cfloor.Base.Outcomes.{
  Memory, Result, ok, err, Alloc, resume, ◌>>=◌, ◌>>◌, return, fail, allocate,
}

module _ {E A : Type 0} where
  unfoldable pub Returned : (A → Type 0) → Result E A → Type 0
  Returned P (ok a) = P a
  Returned P (err e) = Unit

  -- A value that `m` returns holds `P`.
  unfoldable pub Ensures : (A → Type 0) → Alloc E A → Type 0
  unfolding Returned
  Ensures P m = (h : Memory) → Returned P (m h).0

  pub Ensures-intro :
      (P : A → Type 0) (m : Alloc E A) → ((h : Memory) → Returned P (m h).0) → Ensures P m
  unfolding Ensures
  Ensures-intro P m f = f

  always-Returned : (P : A → Type 0) (r : Result E A) → ((a : A) → P a) → Returned P r
  unfolding Returned
  always-Returned P (ok a) f = f a
  always-Returned P (err e) f = tt

  -- What holds of every value holds of a returned one.
  pub Ensures-always : (P : A → Type 0) (m : Alloc E A) → ((a : A) → P a) → Ensures P m
  Ensures-always P m f = Ensures-intro P m (λ h. always-Returned P (m h).0 f)

module _ (E : Type 0) {A : Type 0} where
  pub Ensures-return : (P : A → Type 0) (a : A) → P a → Ensures P (return {E = E} a)
  unfolding Returned
  Ensures-return P a p = Ensures-intro P (return {E = E} a) (λ h. p)

module _ {E A : Type 0} where
  pub Ensures-fail : (P : A → Type 0) (e : E) → Ensures P (fail e)
  unfolding Ensures
  Ensures-fail P e h = tt

  pub Ensures-if :
      (P : A → Type 0) (b : Bool) (m n : Alloc E A)
      → Ensures P m
      → Ensures P n
      → Ensures P (if b then m else n)
  Ensures-if P true m n p q = p
  Ensures-if P false m n p q = q

  pub Ensures-allocate :
      (P : A → Type 0) (e : E) (m : Alloc E A) → Ensures P m → Ensures P (allocate e >> m)
  unfolding Ensures
  Ensures-allocate P e m p [] = p []
  Ensures-allocate P e m p (true ∷ h) = p h
  Ensures-allocate P e m p (false ∷ h) = tt

module _ {E A B : Type 0} (P : A → Type 0) (R : B → Type 0) (f : A → Alloc E B) where
  resume-Returned :
      (r : Result E A × Memory)
      → Returned P r.0
      → ((a : A) → P a → Ensures R (f a))
      → Returned R (resume r f).0
  unfolding Returned Ensures
  resume-Returned (ok a, h) p q = q a p h
  resume-Returned (err e, h) p q = tt

  pub Ensures-bind :
      (m : Alloc E A) → Ensures P m → ((a : A) → P a → Ensures R (f a)) → Ensures R (m >>= f)
  unfolding Ensures
  Ensures-bind m p r h = resume-Returned (m h) (p h) r

module _ {E A : Type 0} where
  pub returned_at :
      (P : A → Type 0) (r : Result E A × Memory) {a : A} {h' : Memory}
      → Returned P r.0
      → r ≡ (ok a, h')
      → P a
  unfolding Returned
  returned_at P (ok b, h) {a = a} p e = let same : b ≡ a = cc in rw⁻¹ same p
  returned_at P (err x, h) p e = absurd cc

  pub Ensures-ok :
      (P : A → Type 0) (m : Alloc E A) (h h' : Memory) (a : A)
      → Ensures P m
      → m h ≡ (ok a, h')
      → P a
  unfolding Ensures
  Ensures-ok P m h h' a p e = returned_at P (m h) (p h) e
