-- ===== src/Number.antt =====
-- src/util.c, `strlenOfNumber`, and what `snprintf` with "%ld" prints for a file's size. A size is
-- not negative, and below 2 ^ 63; nothing here depends on that bound.
pub mod Decimal
mod Tests
use cfloor.Base.{
  ℕ, zero, suc, ◌+◌, ◌/◌, ◌%◌, Option, none, some, List, [], ◌∷◌, ◌++◌, Bytes, if◌then◌else◌, ltb,
}

-- `while (number > 9) { number /= 10; result++; }`; `none`: the fuel ran out.
unfoldable pub count_digits : ℕ → ℕ → ℕ → Option ℕ
count_digits zero number result = none
count_digits (suc fuel) number result =
    let rest = count_digits fuel (number / 10) (result + 1) in
    if ltb 9 number then rest else some result

-- A number has fewer digits than its value plus one.
unfoldable pub strlen_of_number : ℕ → Option ℕ
unfolding count_digits
strlen_of_number number = count_digits (suc number) number 1

-- The decimal digits, as printf writes them.
unfoldable pub print_digits : ℕ → ℕ → Option Bytes
print_digits zero number = none
print_digits (suc fuel) number =
    let rest = print_digits fuel (number / 10) in
    if ltb 9 number
    then elim rest [ none ↦ none | some s ↦ some (s ++ ((b'0' + number % 10) ∷ [])) ]
    else some ((b'0' + number) ∷ [])

unfoldable pub decimal : ℕ → Option Bytes
unfolding print_digits
decimal number = print_digits (suc number) number
