-- ===== src/Status/Format.antt =====
-- The formats of the status pages of src/status.c, and the one argument that they are given.
use cfloor.Base.{
  ℕ, ◌≡◌, refl, inl, inr, Bool, true, false, not, ◌&&◌, Option, none, some, Option-cases, List, [],
  ◌∷◌, ◌++◌, Bytes, if◌then◌else◌, ◌==◌, Bool-cases, arith,
}
use cfloor.Status.{
  StatusStrings, Case, select, all_cases, get_status_strings, format_one, page_of, status_page,
}

abbrev present : Option Bytes → Bool
present none = false
present (some a) = true

-- Every "%" begins a "%s", and there is an argument for it.
safe : Bool → Bytes → Bool
safe argument [] = true
safe argument (c ∷ []) = not (c == b'%')
safe argument (c ∷ d ∷ rest) =
    let after = safe false rest in
    let plain = safe argument (d ∷ rest) in
    if c == b'%' then (d == b's' && argument) && after else plain

format_one_total :
    (f : Bytes) (arg : Option Bytes)
    → safe (present arg) f ≡ true
    → (t : Bytes) × (format_one f arg ≡ some t)
unfolding safe format_one
format_one_total [] arg h = ([], refl)
format_one_total (c ∷ []) arg h = (c ∷ [], ground arith)
format_one_total (c ∷ d ∷ rest) arg h = elim (Bool-cases (c == b'%')) [
  | inl percent ↦ elim (Option-cases arg) [
    | inl missing ↦ absurd (ground arith)
    | inr (a, given) ↦
        let (t, e) = format_one_total rest none (ground arith) in (a ++ t, ground arith)
  ]
  | inr other ↦ let (t, e) = format_one_total (d ∷ rest) arg (ground arith) in (c ∷ t, ground arith)
]

all_safe : List Case → Bool
all_safe [] = true
all_safe (c ∷ cs) = safe true c.strings.status_format && all_safe cs

select-safe :
    (status : ℕ) (cs : List Case) {s : StatusStrings}
    → all_safe cs ≡ true
    → select status cs ≡ some s
    → safe true s.status_format ≡ true
unfolding select all_safe
select-safe status [] h e = cc
select-safe status (c ∷ cs) {s} h e = elim (Bool-cases (status == c.code)) [
  | inl this ↦ ground arith
  | inr other ↦ select-safe status cs {s = s} (ground arith) (ground arith)
]

cases_safe : all_safe all_cases ≡ true
unfolding all_safe safe
cases_safe = refl

strings_safe : (status : ℕ) → safe true (get_status_strings status).status_format ≡ true
unfolding get_status_strings
strings_safe status = elim (Option-cases (select status all_cases)) [
  | inl missing ↦ rw (missing, get_status_strings) (unfold safe in refl)
  | inr (s, found) ↦ rw (found, get_status_strings) (select-safe status all_cases cases_safe found)
]

-- For every status code, the unknown ones included, and every path, the page can be printed: the
-- format of the code asks for no argument but the one that it is given.
pub status_page_total :
    (status : ℕ) (path : Bytes) → (page : Bytes) × (status_page status path ≡ some page)
unfolding status_page
status_page_total status path =
    let (t, e) =
      format_one_total (get_status_strings status).status_format (some path)
        (strings_safe status) in
    (page_of (get_status_strings status) t, rw (e, status_page))
