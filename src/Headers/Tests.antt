-- ===== src/Headers/Tests.antt =====
-- src/headers.c at concrete headers, and its theorems at them.
use cfloor.Base.{◌≡◌, refl, true, [], ◌∷◌, ◌++◌, codes, equal, has}
use cfloor.Headers.{Headers, modify, remove, find, store}
use cfloor.Headers.Lookup.{Distinct, Writes, modify-Writes}
use cfloor.Headers.Removal.{Removes, remove-Removes}
use cfloor.Headers.Field.{parse, first_other}
use cfloor.Headers.Field.Trimmed.{parse-modify, spaces, IsTrimmed}

abbrev two : Headers
two =
    record { key = codes "Host"; value = codes "a" }
    ∷ record { key = codes "Server"; value = codes "b" }
    ∷ []

two-Distinct : Distinct two
unfolding equal
two-Distinct = ((refl, tt), (tt, tt))

abbrev changed : Headers
changed =
    record { key = codes "Host"; value = codes "c" }
    ∷ record { key = codes "Server"; value = codes "b" }
    ∷ []

modify-Writes_example : Writes two (codes "Host") (codes "c") changed
unfolding modify store find equal
modify-Writes_example =
    modify-Writes two (codes "Host") (codes "c") [] {i = 0} {hs' = changed} {m' = []} refl

remove-Removes_example : Removes two (codes "Host") (remove two (codes "Host"))
remove-Removes_example = remove-Removes two (codes "Host") two-Distinct

a_value : IsTrimmed (codes "a b")
unfolding first_other
a_value = record { first = refl; front = codes "a "; last = b'b'; splits = refl; last_other = refl }

parse-modify_example :
    parse two
      (codes "Host" ++ (b':' ∷ (spaces 2 ++ (codes "a b" ++ spaces 1))))
      (true ∷ true ∷ true ∷ [])
    ≡ modify two (codes "Host") (codes "a b") []
unfolding has
parse-modify_example = parse-modify two (codes "Host") (codes "a b") 2 1 [] refl refl refl a_value
