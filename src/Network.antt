-- ===== src/Network.antt =====
-- src/networking.h and `dataHandler` of src/networking.c: a connection, and how the bytes that arrive
-- on it become a request. A file descriptor or a thread is modelled by whether there is one.
mod Ample
pub mod Lines
pub mod Buffer
mod Held
pub mod Chunks
mod LineEnds
pub mod Requests
pub mod Faults
pub mod Bounds
pub mod Encoding
pub mod Send
pub mod Life
pub mod Listen
mod Tests
use cfloor.Base.{
  ℕ, zero, suc, ◌+◌, ◌-◌, Bool, true, false, ◌&&◌, Option, none, some, List, [], ◌∷◌, ◌++◌, Bytes,
  codes, equal_nocase, length, take, leb, ◌==◌, if◌then◌else◌, Memory, Result, ok, err, Alloc,
  ◌>>=◌, ◌>>◌, return, fail, allocate, resume,
}
use cfloor.Dir.{last_byte}
use cfloor.Headers.{Headers, HeadersError, parse_error, alloc_error, end, get}
use cfloor.Headers.Field.{parse}
use cfloor.Request.{MetaData, MetaError, Protocol, http10, http11, null_string, headers_metadata}

pub data ConnectionState : Type 0 where
  opened processing keep_alive aborted closed freed : ConnectionState

-- `path` of the meta data is NULL where there is none. `current_header` is the line that is being
-- read, without the NUL behind it.
pub record Connection : Type 0 where
  pub state : ConnectionState
  pub in_use : ℕ
  pub readfd : Bool
  pub writefd : Bool
  pub meta_data : Option MetaData
  pub headers : Headers
  pub current_header : Option Bytes
  pub current_header_length : ℕ
  pub request_thread : Bool
  pub response_thread : Bool
  pub encoder_thread : Bool
  pub is_persistent : Bool
  pub is_chunked : Bool

-- What C leaves undefined: NULL is read, or a byte is written next to a buffer.
pub data Fault : Type 0 where
  null_read out_of_bounds : Fault

-- Why the loop over the bytes is left early.
pub data Exit : Type 0 where
  dropped : Connection → Exit
  started : Connection → Exit
  undefined : Fault → Exit

abbrev pub buffer_length : ℕ
buffer_length = 64

-- The line so far is prolonged; it is one allocation in either case.
abbrev pub dump_onto : Connection → Option Bytes → Bytes → Alloc Exit Connection
dump_onto c none bytes = do
  allocate (dropped (record c { current_header_length = 0 }))
  return (record c { current_header = some bytes; current_header_length = length bytes })
dump_onto c (some line) bytes = do
  allocate (dropped c)
  return (record c {
    current_header = some (take c.current_header_length line ++ bytes);
    current_header_length = c.current_header_length + length bytes;
  })

unfoldable pub dump_header_buffer : Connection → Bytes → Alloc Exit Connection
dump_header_buffer c bytes = dump_onto c c.current_header bytes

-- `currentHeader[--currentHeaderLength] = '\0'`, which takes the '\r' off. At length 0 the index
-- wraps around, and the write goes beside the buffer.
abbrev pub chop_at : Connection → Option Bytes → ℕ → Alloc Exit Connection
chop_at c none n = fail (undefined null_read)
chop_at c (some line) zero = fail (undefined out_of_bounds)
chop_at c (some line) (suc n) =
    return (record c { current_header = some (take n line); current_header_length = n })

abbrev pub text_of : Option Bytes → Bytes
text_of none = []
text_of (some line) = line

abbrev pub forget_line : Connection → Connection
forget_line c = record c { current_header = none; current_header_length = 0 }

-- Without a Connection field it is the protocol that decides.
abbrev pub persists_by : Option Bytes → Protocol → Bool
persists_by none http10 = false
persists_by none http11 = true
persists_by (some v) p = if equal_nocase v (codes "close") then false else true

unfoldable pub persists : Headers → Protocol → Bool
persists hs p = persists_by (get hs (codes "Connection")) p

-- `spawns`: whether the thread for the request can be started.
unfoldable pub start_request_handler : Bool → Connection → Connection
start_request_handler true c = record c { request_thread = true }
start_request_handler false c = record c { state = aborted; in_use = c.in_use - 1 }

unfoldable pub headers_complete : Bool → MetaData → Connection → Connection
headers_complete spawns m c =
    let persistent = persists c.headers m.protocol in
    start_request_handler spawns (record (forget_line c) {
      is_persistent = persistent;
      state = if persistent then keep_alive else processing;
    })

abbrev pub after_metadata :
    Connection → Result MetaError MetaData × Memory → Result Exit Connection × Memory
after_metadata c (ok m, h) = (ok (record c { meta_data = some m }), h)
after_metadata c (err null_string, h) = (err (undefined null_read), h)
after_metadata c (err MetaError.parse_error, h) = (err (dropped c), h)
after_metadata c (err MetaError.alloc_error, h) = (err (dropped c), h)

abbrev pub after_parse :
    Bool
    → MetaData
    → Connection
    → Result HeadersError (ℕ × Headers) × Memory
    → Result Exit Connection × Memory
after_parse spawns m c (ok (i, hs), h) = (ok (record c { headers = hs }), h)
after_parse spawns m c (err end, h) = (err (started (headers_complete spawns m c)), h)
after_parse spawns m c (err parse_error, h) = (err (dropped c), h)
after_parse spawns m c (err alloc_error, h) = (err (dropped c), h)

-- The first line of a request, or a line of its header.
unfoldable pub read_line : Bool → Option MetaData → Connection → Bytes → Alloc Exit Connection
read_line spawns none c line h = after_metadata c (headers_metadata line h)
read_line spawns (some m) c line h = after_parse spawns m c (parse c.headers line h)

-- The variables of the loop; `length` is the length of the list `buffer`.
pub record Loop : Type 0 where
  pub connection : Connection
  pub buffer : Bytes
  pub last : ℕ

-- `last` keeps the '\r' of the line.
unfoldable pub line_end : Bool → Loop → Alloc Exit Loop
line_end spawns l = do
  c ← dump_header_buffer l.connection l.buffer
  c' ← chop_at c c.current_header c.current_header_length
  c'' ← read_line spawns c'.meta_data c' (text_of c'.current_header)
  return (record { connection = forget_line c''; buffer = []; last = l.last })

abbrev pub put_byte : Loop → ℕ → Loop
put_byte l b = record l { buffer = l.buffer ++ (b ∷ []); last = b }

unfoldable pub flush_full : Loop → Alloc Exit Loop
flush_full l = do
  c ← dump_header_buffer l.connection l.buffer
  return (record l { connection = c; buffer = [] })

unfoldable pub read_byte : Bool → Loop → ℕ → Alloc Exit Loop
read_byte spawns l b =
    if l.last == b'\r' && b == b'\n'
    then line_end spawns l
    else if leb buffer_length (length l.buffer)
    then (flush_full l >>= λ l'. return (put_byte l' b))
    else return (put_byte l b)

unfoldable pub read_bytes : Bool → Loop → Bytes → Alloc Exit Loop
read_bytes spawns l [] = return l
read_bytes spawns l (b ∷ bs) = do l' ← read_byte spawns l b; read_bytes spawns l' bs

-- How the bytes end: EAGAIN, the end of the stream, or another error.
pub data Ending : Type 0 where
  again ended broken : Ending

abbrev pub abort : Connection → Connection
abort c = record (forget_line c) { state = aborted }

abbrev pub release : Connection → Connection
release c = record c { in_use = c.in_use - 1 }

abbrev pub flushed : Result Exit Connection × Memory → Result Fault Connection × Memory
flushed (ok c, h) = (ok c, h)
flushed (err (dropped c), h) = (ok (abort c), h)
flushed (err (started c), h) = (ok c, h)
flushed (err (undefined f), h) = (err f, h)

unfoldable pub flush_rest : Connection → Bytes → Alloc Fault Connection
flush_rest c [] h = (ok c, h)
flush_rest c (b ∷ bs) h = flushed (dump_header_buffer c (b ∷ bs) h)

-- `buffer[length] = '\0'` at the end of the stream has no room behind a full buffer.
unfoldable pub after_loop : Loop → Ending → Alloc Fault Connection
after_loop l again = do c ← flush_rest l.connection l.buffer; return (release c)
after_loop l ended =
    if leb buffer_length (length l.buffer)
    then fail out_of_bounds
    else (flush_rest l.connection l.buffer >>= λ c. return (release (abort c)))
after_loop l broken = do c ← flush_rest l.connection l.buffer; return (release (abort c))

abbrev pub end_read : Ending → Result Exit Loop × Memory → Result Fault Connection × Memory
end_read e (ok l, h) = after_loop l e h
end_read e (err (dropped c), h) = (ok (release (abort c)), h)
end_read e (err (started c), h) = (ok c, h)
end_read e (err (undefined f), h) = (err f, h)

-- The connection in use, its old threads joined.
abbrev pub begin_read : Connection → Loop
begin_read c = record {
  connection = record c { in_use = c.in_use + 1; response_thread = false; encoder_thread = false };
  buffer = [];
  last = if c.current_header_length == 0 then 0 else last_byte 0 (text_of c.current_header);
}

abbrev pub read_opened :
    Bool → ConnectionState → Connection → Bytes → Ending → Alloc Fault Connection
read_opened spawns opened c input e h = end_read e (read_bytes spawns (begin_read c) input h)
read_opened spawns _ c input e h = (ok c, h)

-- The handler on one connection: the bytes that can be read, and how they end.
unfoldable pub data_handler : Bool → Connection → Bytes → Ending → Alloc Fault Connection
data_handler spawns c input e = read_opened spawns c.state c input e
