-- ===== src/Headers/Field.antt =====
-- src/headers.c, `headers_parse`: one line of a header, without its line end, into the table. The
-- line is a buffer with a length and may hold NUL bytes; the key and the value are C strings.
pub mod Trimmed
use cfloor.Base.{
  ℕ, zero, suc, ◌+◌, ◌-◌, ◌<◌, ◌≤◌, ◌≡◌, ◌≢◌, refl, ap, ◌∙◌, append_assoc, length-append, inl, inr,
  Bool, true, false, Option, none, some, List, [], ◌∷◌, ◌++◌, Bytes, codes, c_string, has, length,
  get_elem?, take, drop, Memory, Alloc, Result, ok, err, ◌>>=◌, ◌>>◌, return, fail, allocate,
  if◌then◌else◌, ltb, ◌==◌, Bool-cases, arith,
}
use cfloor.Headers.{Headers, HeadersError, parse_error, alloc_error, end, modify}

-- The bytes before the first colon and those after it; `none` if `valueTmp` stays NULL.
unfoldable pub split_colon : Bytes → Option (Bytes × Bytes)
split_colon [] = none
split_colon (c ∷ cs) =
    if c == b':'
    then some ([], cs)
    else elim (split_colon cs) [ none ↦ none | some (a, b) ↦ some (c ∷ a, b) ]

-- `shift`: the index of the first byte that is no space, and 0 if there is none.
unfoldable pub first_other : Bytes → Option ℕ
first_other [] = none
first_other (c ∷ cs) =
    if c == b' ' then elim (first_other cs) [ none ↦ none | some i ↦ some (suc i) ] else some 0

unfoldable pub skip_leading : Bytes → Bytes
unfolding first_other
skip_leading v = elim (first_other v) [ none ↦ v | some i ↦ drop i v ]

abbrev pub is_space_at : Bytes → ℕ → Bool
is_space_at v i = elim (get_elem? v i) [ none ↦ false | some c ↦ c == b' ' ]

-- The loop from the last byte to the front: it cuts behind the first byte that is no space.
unfoldable pub cut_trailing : ℕ → Bytes → Bytes
cut_trailing zero v = v
cut_trailing (suc i) v = if is_space_at v i then cut_trailing i v else take (suc i) v

unfoldable pub trim : Bytes → Bytes
unfolding skip_leading cut_trailing
trim v = let w = skip_leading v in cut_trailing (length w) w

-- The three allocations are the copy of the line, the key and the value.
unfoldable pub parse_field : Headers → Bytes → Bytes → Alloc HeadersError (ℕ × Headers)
unfolding trim
parse_field hs key value = do
  allocate alloc_error
  allocate alloc_error
  modify hs (c_string key) (trim (c_string value))

unfoldable pub parse : Headers → Bytes → Alloc HeadersError (ℕ × Headers)
unfolding split_colon parse_field
parse hs [] = fail end
parse hs (c ∷ cs) = do
  allocate alloc_error
  elim (split_colon (c ∷ cs)) [
    | none ↦ fail parse_error
    | some (key, value) ↦ parse_field hs key value
  ]
