-- ===== src/Headers.antt =====
-- src/headers.c, the table of header fields: `headers_find`, `headers_get`, `headers_remove`,
-- `headers_mod` (here `modify`) and `headers_dump`. An array of `number` entries is a list. An
-- operation that fails returns before its first write, so an error carries no new table.
pub mod Lookup
pub mod Removal
pub mod Field
mod Tests
use cfloor.Base.{
  ℕ, zero, suc, Option, none, some, List, [], ◌∷◌, ◌++◌, Bytes, codes, equal, length, set, Alloc,
  Result, ok, err, ◌>>=◌, ◌>>◌, return, allocate, if◌then◌else◌,
}

pub record Header : Type 0 where
  pub key : Bytes
  pub value : Bytes

abbrev pub Headers : Type 0
Headers = List Header

-- The negative return codes HEADERS_PARSE_ERROR, HEADERS_ALLOC_ERROR and HEADERS_END.
pub data HeadersError : Type 0 where
  parse_error alloc_error end : HeadersError

abbrev pub headers_create : Headers
headers_create = []

-- `none` is the code's -1.
unfoldable pub find : Headers → Bytes → Option ℕ
find [] key = none
find (h ∷ hs) key =
    if equal h.key key then some 0 else elim (find hs key) [ none ↦ none | some i ↦ some (suc i) ]

-- The value at an index of the array.
unfoldable pub value_at : Headers → ℕ → Option Bytes
value_at [] i = none
value_at (h ∷ hs) zero = some h.value
value_at (h ∷ hs) (suc i) = value_at hs i

-- `none` is NULL.
unfoldable pub get : Headers → Bytes → Option Bytes
unfolding find value_at
get hs key = elim (find hs key) [ none ↦ none | some i ↦ value_at hs i ]

-- The entries behind index `i` move one place to the front.
unfoldable pub shift_down : Headers → ℕ → Headers
shift_down [] i = []
shift_down (h ∷ hs) zero = hs
shift_down (h ∷ hs) (suc i) = h ∷ shift_down hs i

-- The new number of entries, or `none` for -1, with the table.
unfoldable pub remove : Headers → Bytes → Option ℕ × Headers
unfolding find shift_down
remove hs key = elim (find hs key) [
  | none ↦ (none, hs)
  | some i ↦ let rest = shift_down hs i in (some (length rest), rest)
]

-- The write at the index found, or behind the last entry of the reallocated array.
unfoldable pub store : Headers → Header → Option ℕ → Alloc HeadersError (ℕ × Headers)
store hs h none = do allocate alloc_error; return (length hs, hs ++ (h ∷ []))
store hs h (some i) = return (i, set hs i h)

-- Both strings are duplicated before the table is looked at.
unfoldable pub modify : Headers → Bytes → Bytes → Alloc HeadersError (ℕ × Headers)
unfolding store find
modify hs key value = do
  allocate alloc_error
  allocate alloc_error
  store hs (record { key = key; value = value }) (find hs key)

unfoldable pub dump : Headers → Bytes
dump [] = []
dump (h ∷ hs) = h.key ++ (codes ": " ++ (h.value ++ (codes "\r\n" ++ dump hs)))
