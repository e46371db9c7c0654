-- ===== src/Network/Encoding.antt =====
-- src/networking.c, `chunkedTransferEncodingThread`: what the thread writes for what it reads from the
-- handler's pipe.
pub mod Decoder
mod Tests
use cfloor.Base.{
  ℕ, zero, suc, ◌+◌, ◌/◌, ◌%◌, ◌≤◌, ◌<◌, Bool, true, false, Option, none, some, List, [], ◌∷◌, ◌++◌,
  Bytes, codes, length, ltb, if◌then◌else◌,
}

abbrev pub max_chunk_size : ℕ
max_chunk_size = 512

-- A digit as "%x" writes it.
abbrev pub hex_digit : ℕ → ℕ
hex_digit n = if ltb n 10 then b'0' + n else n + 87

-- The digits of a number, on fuel that is more than it.
unfoldable pub hex_digits : ℕ → ℕ → Bytes
hex_digits zero n = []
hex_digits (suc fuel) n =
    let rest = hex_digits fuel (n / 16) in
    if ltb n 16 then hex_digit n ∷ [] else rest ++ (hex_digit (n % 16) ∷ [])

-- `fprintf` with "%x".
unfoldable pub hex : ℕ → Bytes
unfolding hex_digits
hex n = hex_digits (suc n) n

-- How the reads end: with 0 when the handler has closed its end, or with an error.
pub data PipeEnd : Type 0 where
  closed failed : PipeEnd

unfoldable pub chunk : Bytes → Bytes
unfolding hex
chunk bytes = hex (length bytes) ++ (codes "\r\n" ++ (bytes ++ codes "\r\n"))

unfoldable pub last_chunk : PipeEnd → Bytes
last_chunk closed = codes "0\r\n\r\n"
last_chunk failed = []

-- One chunk for every read.
unfoldable pub encode : List Bytes → PipeEnd → Bytes
unfolding chunk last_chunk
encode [] e = last_chunk e
encode (bytes ∷ reads) e = chunk bytes ++ encode reads e
