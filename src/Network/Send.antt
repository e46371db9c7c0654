-- ===== src/Network/Send.antt =====
-- src/networking.c, `sendHeader` and `minimalErrorResponse`: the head of a response. What the system
-- answers to dup, pipe and fdopen is a parameter.
pub mod Framing
pub mod Refused
mod Tests
use cfloor.Base.{
  ℕ, Bool, true, false, ◌&&◌, Option, none, some, List, [], ◌∷◌, ◌++◌, Bytes, codes, Memory, Result,
  ok, err, Alloc, ◌>>=◌, ◌>>◌, return, fail, allocate, if◌then◌else◌,
}
use cfloor.Headers.{Header, Headers, HeadersError, get, remove, modify, dump}
use cfloor.Number.{decimal}
use cfloor.Request.{Protocol, http10, MetaData, protocol_string}
use cfloor.Status.{get_status_strings}
use cfloor.Network.{ConnectionState, processing, aborted, Connection, Fault, null_read}

-- Which calls succeed. `pthread_create` never returns a negative number, which is what the code
-- takes for its failure.
pub record Plumbing : Type 0 where
  pub dup : Bool
  pub pipe : Bool
  pub dup_again : Bool
  pub fdopen : Bool
  pub fdopen_again : Bool

-- What a call of `sendHeader` leaves. `written` is what went to the client; `descriptor`: whether
-- the handler gets one for the body.
pub record Sent : Type 0 where
  pub connection : Connection
  pub headers : Headers
  pub written : Bytes
  pub descriptor : Bool

-- `headers_mod` where the code does not look at what it returns.
abbrev pub unchecked :
    Headers → Result HeadersError (ℕ × Headers) × Memory → Result Fault Headers × Memory
unchecked hs (ok (i, hs'), h) = (ok hs', h)
unchecked hs (err e, h) = (ok hs, h)

unfoldable pub put : Headers → Bytes → Bytes → Alloc Fault Headers
put hs key value h = unchecked hs (modify hs key value h)

-- The default headers of the configuration go first.
unfoldable pub put_all : Headers → Headers → Alloc Fault Headers
unfolding put
put_all hs [] = return hs
put_all hs (d ∷ ds) = do hs' ← put hs d.key d.value; put_all hs' ds

abbrev pub protocol_of_request : Option MetaData → Protocol
protocol_of_request none = http10
protocol_of_request (some m) = m.protocol

abbrev or_empty : Option Bytes → Bytes
or_empty none = []
or_empty (some s) = s

-- The line of the status, the fields and the empty line.
unfoldable pub head_text : Protocol → ℕ → Headers → Bytes
head_text p status hs =
    protocol_string p
    ++ (codes " "
        ++ (or_empty (decimal status)
            ++ (codes " "
                ++ ((get_status_strings status).status_string
                    ++ (codes "\r\n" ++ (dump hs ++ codes "\r\n"))))))

-- `headers_mod` with the number 0 for a value, which is NULL: the key is copied, and then `strdup`
-- reads NULL.
abbrev pub put_null : Headers → Bytes → Alloc Fault Headers
put_null hs key [] = (err null_read, [])
put_null hs key (true ∷ h) = (err null_read, h)
put_null hs key (false ∷ h) = (ok hs, h)

-- The connection is closed for writing, and is persistent no longer.
abbrev pub give_up : Connection → Connection
give_up c =
    if c.is_persistent
    then record c { writefd = false; state = processing; is_persistent = false }
    else record c { writefd = false }

unfoldable pub minimal_error_response : Plumbing → Headers → Connection → Alloc Fault Sent
unfolding put
minimal_error_response pl hs c = do
  hs' ← put (remove hs (codes "Content-Encoding")).1 (codes "Connection") (codes "close")
  hs'' ← put_null hs' (codes "Content-Length")
  return (record {
    connection = give_up c;
    headers = hs'';
    written = if pl.fdopen_again then head_text (protocol_of_request c.meta_data) 500 hs'' else [];
    descriptor = false;
  })

-- The fields that say how the body ends, and whether it is sent in chunks.
abbrev pub chunked_if : Headers → Option Bytes → Alloc Fault (Headers × Bool)
chunked_if hs none = do
  hs' ← put hs (codes "Transfer-Encoding") (codes "chunked")
  return (hs', true)
chunked_if hs (some length) = return (hs, false)

unfoldable pub frame : Bool → Headers → Alloc Fault (Headers × Bool)
unfolding put
frame true hs = do
  hs' ← put hs (codes "Connection") (codes "keep-alive")
  chunked_if hs' (get hs' (codes "Content-Length"))
frame false hs = do hs' ← put hs (codes "Connection") (codes "close"); return (hs', false)

-- The way of the body: the pipe to a new encoder thread, or a duplicate of the socket.
unfoldable pub open_body : Plumbing → Bool → Connection → Memory → Option Connection × Memory
open_body pl true c [] = (if pl.pipe then some (record c { encoder_thread = true }) else none, [])
open_body pl true c (room ∷ h) =
    if pl.pipe
    then (if room then some (record c { encoder_thread = true }) else none, h)
    else (none, room ∷ h)
open_body pl false c h = (if pl.dup_again then some c else none, h)

unfoldable pub send_head :
    Plumbing
    → ℕ
    → Headers
    → Bool
    → Connection
    → Option Connection × Memory
    → Result Fault Sent × Memory
send_head pl status hs chunked c (none, h) = minimal_error_response pl hs c h
send_head pl status hs chunked c (some c', h) =
    let c'' = record c' { is_chunked = chunked } in
    if pl.fdopen
    then (
      ok (record {
        connection = c'';
        headers = hs;
        written = head_text (protocol_of_request c.meta_data) status hs;
        descriptor = true;
      }),
      h,
    )
    else minimal_error_response pl hs c'' h

unfoldable pub send_framed : Plumbing → ℕ → Connection → Headers × Bool → Alloc Fault Sent
send_framed pl status c (hs, chunked) h =
    if pl.dup
    then send_head pl status hs chunked c (open_body pl chunked c h)
    else minimal_error_response pl hs c h

unfoldable pub send_header : Plumbing → Headers → ℕ → Headers → Connection → Alloc Fault Sent
send_header pl defaults status hs c = do
  hs' ← put_all hs defaults
  framed ← frame c.is_persistent hs'
  send_framed pl status c framed

abbrev pub is_aborted : ConnectionState → Bool
is_aborted aborted = true
is_aborted _ = false

abbrev pub time_out_fields : Headers → Alloc Fault Headers
time_out_fields defaults = do
  hs ← put_all [] defaults
  hs' ← put hs (codes "Connection") (codes "close")
  put hs' (codes "Content-Length") (codes "0")

-- The answer that `cleanup` sends on an aborted connection that can still be written to.
unfoldable pub time_out_answer : Plumbing → Headers → Connection → Alloc Fault Bytes
time_out_answer pl defaults c =
    if is_aborted c.state && (c.writefd && (pl.dup && pl.fdopen))
    then (time_out_fields defaults >>= λ hs.
        return (head_text (protocol_of_request c.meta_data) 408 hs))
    else return []
