-- ===== src/Number/Tests.antt =====
-- `strlenOfNumber` of src/util.c at concrete numbers.
use cfloor.Base.{◌≡◌, refl, some}
use cfloor.Number.{strlen_of_number}

zero_has_one : strlen_of_number 0 ≡ some 1
unfolding strlen_of_number
zero_has_one = refl
