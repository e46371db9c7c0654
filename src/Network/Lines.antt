-- ===== src/Network/Lines.antt =====
-- `dataHandler` of src/networking.c without its buffer: the text of a line is prolonged byte by byte.
use cfloor.Base.{
  ℕ, ◌+◌, Bool, false, ◌&&◌, Option, none, some, [], ◌∷◌, ◌++◌, Bytes, length, take, ◌==◌,
  if◌then◌else◌, Result, ok, err,
}
use cfloor.Dir.{last_byte}
use cfloor.Network.{
  Connection, Fault, out_of_bounds, Exit, dropped, started, undefined, forget_line, read_line,
  abort, release,
}

-- No line is the null pointer.
abbrev pub line_of : Bytes → Option Bytes
line_of [] = none
line_of (b ∷ bs) = some (b ∷ bs)

abbrev pub with_line : Connection → Bytes → Connection
with_line c text = record c { current_header = line_of text; current_header_length = length text }

-- What is known of a request that is being read: the connection but for its line, the line's text,
-- and the byte before.
pub record Reading : Type 0 where
  pub connection : Connection
  pub text : Bytes
  pub last : ℕ

abbrev pub next_line : ℕ → Result Exit Connection → Result Exit Reading
next_line last (ok c) = ok (record { connection = forget_line c; text = []; last = last })
next_line last (err e) = err e

-- The text of a line ends with the '\r'.
unfoldable pub text_end : Bool → Connection → Bytes → ℕ → Result Exit Reading
text_end spawns c [] last = err (undefined out_of_bounds)
text_end spawns c (b ∷ bs) last =
    let line = take (length bs) (b ∷ bs) in
    let c' = record c { current_header = some line; current_header_length = length bs } in
    next_line last (read_line spawns c.meta_data c' line []).0

unfoldable pub text_byte : Bool → Reading → ℕ → Result Exit Reading
text_byte spawns r b =
    if r.last == b'\r' && b == b'\n'
    then text_end spawns r.connection r.text r.last
    else ok (record r { text = r.text ++ (b ∷ []); last = b })

abbrev pub carry_on : Result Exit Reading → (Reading → Result Exit Reading) → Result Exit Reading
carry_on (ok r) f = f r
carry_on (err e) f = err e

unfoldable pub text_bytes : Bool → Reading → Bytes → Result Exit Reading
text_bytes spawns r [] = ok r
text_bytes spawns r (b ∷ bs) = carry_on (text_byte spawns r b) (λ r'. text_bytes spawns r' bs)

-- The connection that is left when no more bytes are there.
abbrev pub settle : Result Exit Reading → Result Fault Connection
settle (ok r) = ok (release (with_line r.connection r.text))
settle (err (dropped c)) = ok (release (abort c))
settle (err (started c)) = ok c
settle (err (undefined f)) = err f

-- A connection between two calls of the handler, with the text of the line that it has begun.
abbrev pub taken : Connection → Connection
taken c = record c { in_use = c.in_use + 1; response_thread = false; encoder_thread = false }

abbrev pub reading_of : Connection → Bytes → Reading
reading_of c text = record { connection = taken c; text = text; last = last_byte 0 text }
