-- ===== src/Number/Decimal.antt =====
-- `strlenOfNumber` of src/util.c beside the digits that are printed.
use cfloor.Base.{
  ℕ, zero, suc, ◌+◌, ◌/◌, ◌%◌, ◌<◌, ◌≡◌, refl, ap, ◌∙◌, inl, inr, some, [], ◌∷◌, ◌++◌, Bytes,
  length, length-append, Bool-cases, ltb, arith,
}
use cfloor.Number.{count_digits, strlen_of_number, print_digits, decimal}

-- One run of both loops: the same fuel is enough for both, and what is printed is as long as the
-- count says.
both :
    (fuel number result : ℕ)
    → number < fuel
    → (s : Bytes) × (print_digits fuel number ≡ some s)
      × (count_digits fuel number (result + 1) ≡ some (result + length s))
unfolding print_digits count_digits
both zero number result h = absurd (omega arith)
both (suc fuel) number result h = elim (Bool-cases (ltb 9 number)) [
  | inl more ↦
      let (s, printed, counted) = both fuel (number / 10) (result + 1) (ground arith) in
      (
        s ++ ((b'0' + number % 10) ∷ []),
        rw (more, printed),
        rw more (counted ∙ ap some (omega (arith, length-append s ((b'0' + number % 10) ∷ [])))),
      )
  | inr last ↦ ((b'0' + number) ∷ [], rw last, rw last refl)
]

-- Both loops end, and the length that `strlenOfNumber` returns is that of the decimal text, so that
-- `snprintf` into `length + 1` bytes cuts nothing off.
pub strlen_of_number-decimal :
    (number : ℕ)
    → (s : Bytes) × (decimal number ≡ some s) × (strlen_of_number number ≡ some (length s))
unfolding strlen_of_number decimal
strlen_of_number-decimal number =
    let (s, printed, counted) = both (suc number) number 0 (omega arith) in
    (s, printed, counted ∙ ap some (omega arith))
