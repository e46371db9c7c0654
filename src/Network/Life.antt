-- ===== src/Network/Life.antt =====
-- src/networking.c, the life of a connection: `listenThread` makes it, the threads of a request work
-- on it, and `cleanup` takes it off the list and frees it. Each function is one step of one thread.
pub mod Leaving
mod Reading
mod Sending
pub mod Threads
pub mod Accounts
pub mod Ends
pub mod TimeOut
mod Tests
use cfloor.Base.{
  ℕ, zero, suc, ◌+◌, ◌≡◌, Bool, true, false, ◌&&◌, Option, none, some, List, [], ◌∷◌, Bytes, Memory,
  Result, ok, err, if◌then◌else◌, ◌==◌,
}
use cfloor.Headers.{Headers}
use cfloor.Network.{
  ConnectionState, opened, processing, keep_alive, aborted, closed, freed, Connection, Ending,
  data_handler,
}
use cfloor.Network.Send.{Plumbing, Sent, send_header}

-- What `listenThread` sets up. It leaves `isPersistent` and `isChunked` as malloc returned them.
abbrev pub new_connection : Bool → Bool → Connection
new_connection persistent chunked = record {
  state = opened;
  in_use = 0;
  readfd = true;
  writefd = true;
  meta_data = none;
  headers = [];
  current_header = none;
  current_header_length = 0;
  request_thread = false;
  response_thread = false;
  encoder_thread = false;
  is_persistent = persistent;
  is_chunked = chunked;
}

-- The thread that calls.
pub data Caller : Type 0 where
  by_request by_response by_encoder : Caller

abbrev pub is_request : Caller → Bool
is_request by_request = true
is_request _ = false

abbrev pub is_response : Caller → Bool
is_response by_response = true
is_response _ = false

abbrev pub is_encoder : Caller → Bool
is_encoder by_encoder = true
is_encoder _ = false

-- `stopThread`, which does nothing to the thread that calls it: what is left of the handle.
abbrev pub stop_thread : Bool → Bool → Bool
stop_thread self thread = if self then thread else false

-- `inUse--`; `none`: below zero.
abbrev pub counted_down : ℕ → Connection → Option Connection
counted_down zero c = none
counted_down (suc n) c = some (record c { in_use = n })

unfoldable pub safe_end_connection : Caller → Connection → Option Connection
safe_end_connection self c = counted_down c.in_use (record c {
  request_thread = stop_thread (is_request self) c.request_thread;
  response_thread = stop_thread (is_response self) c.response_thread;
  readfd = false;
  writefd = false;
})

-- The length of the line that was being read is left as it is.
unfoldable pub reset_persistent_connection : Caller → Connection → Option Connection
reset_persistent_connection self c = counted_down c.in_use (record c {
  request_thread = stop_thread (is_request self) c.request_thread;
  response_thread = stop_thread (is_response self) c.response_thread;
  encoder_thread = stop_thread (is_encoder self) c.encoder_thread;
  meta_data = none;
  current_header = none;
  headers = [];
  state = opened;
})

-- `responseThread` behind the call of the handler.
abbrev pub end_response : Bool → Bool → Connection → Option Connection
end_response true false c = reset_persistent_connection by_response c
end_response true true c = some c
end_response false chunked c = safe_end_connection by_response c

unfoldable pub response_end : Connection → Option Connection
response_end c = end_response c.is_persistent c.is_chunked c

-- A connection with the lists that it is on, whether it has been freed, the threads that run for it,
-- and whether `resetOkay` is unlocked for the encoder.
pub record Server : Type 0 where
  pub connection : Connection
  pub listed : Bool
  pub queued : Bool
  pub is_freed : Bool
  pub requesting : Bool
  pub responding : Bool
  pub encoding : Bool
  pub reset_okay : Bool

-- `cleanup` on a link of `connectionList`. `aged`: the connection has timed out; `room`: the push
-- to `connectionsToFree` has memory, which the code does not check.
abbrev pub sweep_state : Bool → Bool → ConnectionState → Server → Server
sweep_state aged room keep_alive s = s
sweep_state aged room opened s =
    if aged then record s { connection = record s.connection { state = aborted } } else s
sweep_state aged room _ s = record s { listed = false; queued = room }

unfoldable pub sweep : Bool → Bool → Server → Server
sweep aged room s = sweep_state aged room s.connection.state s

-- `cleanup` on a link of `connectionsToFree`: threads that are left are cancelled.
abbrev pub freed_server : Server → Server
freed_server s = record s {
  queued = false;
  is_freed = true;
  requesting = false;
  responding = false;
  encoding = false;
}

unfoldable pub collect : Server → Server
collect s = if s.connection.in_use == 0 then freed_server s else s

-- `cleanup`, as far as it concerns one connection: the two lists in turn.
abbrev pub take_queued : Server → Server
take_queued s = if s.queued then collect s else s

unfoldable pub cleanup : Bool → Bool → Server → Server
cleanup aged room s = take_queued (if s.listed then sweep aged room s else s)

-- `requestThread` up to its sleep: the handler is called in a thread of its own, which takes
-- `resetOkay` on a persistent connection.
abbrev pub respond : Server → Server
respond s = record s {
  connection = record s.connection { response_thread = true };
  responding = true;
  reset_okay = false;
}

abbrev pub answer : Server → Connection → Server
answer s c = record s {
  connection = c;
  requesting = c.request_thread;
  responding = false;
  encoding = s.encoding && c.encoder_thread;
  reset_okay = s.connection.is_persistent;
}

-- Whether a request thread runs once the bytes have been read.
abbrev pub begun : ConnectionState → Bool → Connection → Bool
begun opened running c = c.request_thread
begun _ running c = running

-- One step of one thread, the handlers' timeout left aside. The premises say that the thread runs,
-- and that the connection is on the list that it goes through.
pub data Step : Server → Server → Type 0 where
  reads :
      (s : Server) (spawns : Bool) (input : Bytes) (ending : Ending) (h : Memory) (c : Connection)
      (h' : Memory)
      → s.listed ≡ true
      → data_handler spawns s.connection input ending h ≡ (ok c, h')
      → Step s (record s { connection = c; requesting = begun s.connection.state s.requesting c })
  responds :
      (s : Server) → s.requesting ≡ true → s.connection.response_thread ≡ false → Step s (respond s)
  sends :
      (s : Server) (pl : Plumbing) (defaults : Headers) (status : ℕ) (hs : Headers) (h : Memory)
      (r : Sent) (h' : Memory)
      → s.responding ≡ true
      → send_header pl defaults status hs s.connection h ≡ (ok r, h')
      → Step s (record s { connection = r.connection; encoding = r.connection.encoder_thread })
  answers :
      (s : Server) (c : Connection)
      → s.responding ≡ true
      → response_end s.connection ≡ some c
      → Step s (answer s c)
  encodes :
      (s : Server) (c : Connection)
      → s.encoding ≡ true
      → s.responding ≡ false
      → s.reset_okay ≡ true
      → reset_persistent_connection by_encoder s.connection ≡ some c
      → Step s (record s { connection = c; requesting = c.request_thread; encoding = false })
  sweeps : (s : Server) (aged room : Bool) → s.listed ≡ true → Step s (sweep aged room s)
  collects : (s : Server) → s.queued ≡ true → Step s (collect s)

pub data Reach (s : Server) : Server → Type 0 where
  here : Reach s s
  next : {t u : Server} → Reach s t → Step t u → Reach s u

abbrev pub accepted : Bool → Bool → Server
accepted persistent chunked = record {
  connection = new_connection persistent chunked;
  listed = true;
  queued = false;
  is_freed = false;
  requesting = false;
  responding = false;
  encoding = false;
  reset_okay = false;
}

-- The timeout of a handler: `requestThread` wakes up, cancels the handler's thread and ends the
-- connection.
abbrev pub time_out : Server → Connection → Server
time_out s c = record s { connection = c; requesting = false; responding = false }
