-- ===== src/Cgi.antt =====
-- src/cgi.c, `cgiHandler`: which script runs, with which environment, and how the head of its output
-- becomes the head of the response. Running the script is a parameter: it takes the file and the
-- environment, and its output is the bytes that can be read from the pipe.
pub mod Handler
pub mod Status
pub mod Allowed
pub mod RoundTrip
mod Tests
use cfloor.Base.{
  ℕ, zero, suc, ◌+◌, ◌-◌, ◌*◌, ◌%◌, ◌^◌, Bool, true, false, ◌&&◌, ◌||◌, Option, none, some, List,
  [], ◌∷◌, ◌++◌, Bytes, codes, length, leb, ltb, ◌==◌, if◌then◌else◌, Memory, Result, ok, err,
  Alloc, ◌>>=◌, ◌>>◌, return, fail, resume,
}
use cfloor.Headers.{Headers, HeadersError, headers_create, get, remove}
use cfloor.Headers.Field.{parse}
use cfloor.Files.{Reply}

abbrev pub local_buffer_length : ℕ
local_buffer_length = 512

-- The variables of the loop; `bufferIndex` is the length of the list.
pub record Reader : Type 0 where
  pub headers : Headers
  pub buffer : Bytes
  pub was_line_end : Bool

-- How the loop goes on: with the next byte, or to its end with `finished` and the fields read.
pub data Progress : Type 0 where
  going : Reader → Progress
  stopped : Bool → Headers → Progress

abbrev pub after_field : Headers → Result HeadersError (ℕ × Headers) × Memory → Progress × Memory
after_field hs (ok (i, hs'), h) =
    (going (record { headers = hs'; buffer = []; was_line_end = true }), h)
after_field hs (err e, h) = (stopped false hs, h)

-- The end of a line of the head.
unfoldable pub end_line : Reader → Memory → Progress × Memory
end_line r h =
    if r.was_line_end
    then (stopped true r.headers, h)
    else after_field r.headers (parse r.headers r.buffer h)

unfoldable pub read_byte : Reader → ℕ → Memory → Progress × Memory
read_byte r c h =
    if leb (local_buffer_length - 1) (length r.buffer)
    then (stopped false r.headers, h)
    else if c == b'\r'
    then (going r, h)
    else if c == b'\n'
    then end_line r h
    else (going (record r { buffer = r.buffer ++ (c ∷ []); was_line_end = false }), h)

-- What is known when the loop has ended: whether the head is complete, its fields, and the bytes
-- that are left in the pipe.
pub record Head : Type 0 where
  pub finished : Bool
  pub headers : Headers
  pub rest : Bytes

abbrev pub carry_on :
    Bytes → Progress × Memory → (Reader → Alloc Reply Head) → Result Reply Head × Memory
carry_on rest (going r, h) f = f r h
carry_on rest (stopped finished hs, h) f =
    (ok (record { finished = finished; headers = hs; rest = rest }), h)

unfoldable pub read_head : Reader → Bytes → Alloc Reply Head
read_head r [] h = (ok (record { finished = false; headers = r.headers; rest = [] }), h)
read_head r (c ∷ output) h = carry_on output (read_byte r c h) (λ r'. read_head r' output)

abbrev pub first_reader : Reader
first_reader = record { headers = headers_create; buffer = []; was_line_end = false }

-- `strtol` in base 10: white space, a sign, and digits, of which none is 0.
abbrev pub is_blank : ℕ → Bool
is_blank c = c == b' ' || (leb 9 c && leb c 13)

abbrev pub is_digit : ℕ → Bool
is_digit c = leb b'0' c && leb c b'9'

unfoldable pub digits_value : ℕ → Bytes → ℕ
digits_value n [] = n
digits_value n (c ∷ cs) = elim (is_digit c) [
  | true ↦ digits_value (n * 10 + (c - b'0')) cs
  | false ↦ n
]

abbrev pub at_most : ℕ → ℕ → ℕ
at_most bound n = if ltb bound n then bound else n

-- The value as a long of 64 bits, cut to an int of 32; a negative one as its bit pattern.
abbrev pub positive_int : ℕ → ℕ
positive_int n = at_most (2 ^ 63 - 1) n % 2 ^ 32

abbrev pub negative_int : ℕ → ℕ
negative_int n = (2 ^ 64 - at_most (2 ^ 63) n) % 2 ^ 32

unfoldable pub signed_value : Bytes → ℕ
unfolding digits_value
signed_value [] = 0
signed_value (c ∷ cs) =
    if c == b'-'
    then negative_int (digits_value 0 cs)
    else if c == b'+'
    then positive_int (digits_value 0 cs)
    else positive_int (digits_value 0 (c ∷ cs))

unfoldable pub strtol_int : Bytes → ℕ
strtol_int [] = 0
strtol_int (c ∷ cs) = if is_blank c then strtol_int cs else signed_value (c ∷ cs)

-- What the handler does with a head: 500, or a status with the fields.
abbrev pub with_status : Head → ℕ → Bool × ℕ × Headers
with_status head code =
    if leb 100 code && leb code 600
    then (head.finished, code, (remove head.headers (codes "Status")).1)
    else (false, code, head.headers)

abbrev pub status_field : Head → Option Bytes → Bool × ℕ × Headers
status_field head none = (head.finished, 200, head.headers)
status_field head (some line) = with_status head (strtol_int line)

unfoldable pub status_of_head : Head → Bool × ℕ × Headers
status_of_head head = status_field head (get head.headers (codes "Status"))

-- The response: what goes to `sendHeader`, and the bytes that are copied behind it.
pub record Response : Type 0 where
  pub status_code : ℕ
  pub headers : Headers
  pub body : Bytes

abbrev pub respond : Bytes → Bool × ℕ × Headers → Alloc Reply Response
respond body (true, code, hs) = return (record { status_code = code; headers = hs; body = body })
respond body (false, code, hs) = fail (Reply.status 500)

unfoldable pub read_output : Bytes → Alloc Reply Response
read_output output = do
  head ← read_head first_reader output
  respond head.rest (status_of_head head)
