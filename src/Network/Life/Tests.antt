-- ===== src/Network/Life/Tests.antt =====
-- Connections of src/networking.c from their first byte on.
use cfloor.Base.{◌≡◌, refl, true, false, some, [], Bytes, codes, has, ok}
use cfloor.Headers
use cfloor.Request.{Method, http11, method_string, protocol_string}
use cfloor.Request.RoundTrip.{IsTarget}
use cfloor.Network.{Connection, keep_alive, again, data_handler, persists}
use cfloor.Network.Chunks.{feed}
use cfloor.Network.Lines.{taken}
use cfloor.Network.Requests.{request_text, request_data, requested, stored, feed-request_text}
use cfloor.Network.Life.{
  new_connection, by_request, safe_end_connection, Server, sweep, Reach, here, next, reads, sweeps,
  accepted, time_out,
}
use cfloor.Network.Life.TimeOut.{time_out_leaks}

sample-IsTarget : IsTarget (codes "/x") (codes "q")
unfolding has
sample-IsTarget = record {
  path_space = (λ e. cc, refl);
  path_hash = refl;
  path_mark = refl;
  path_nul = refl;
  query_space = refl;
  query_hash = refl;
  query_nul = refl;
}

no_newline : has b'\n' (codes "/x") ≡ false
unfolding has
no_newline = refl

no_newline' : has b'\n' (codes "q") ≡ false
unfolding has
no_newline' = refl

abbrev request : Bytes
request = codes "GET /x?q HTTP/1.1\r\n\r\n"

whole_request : request ≡ request_text Method.get http11 (codes "/x") (codes "q") []
unfolding method_string protocol_string
whole_request = refl

abbrev serving : Connection
serving =
    requested (taken (new_connection false false))
      (request_data Method.get http11 (codes "/x") (codes "q")) []

read : data_handler true (new_connection false false) request again [] ≡ (ok serving, [])
unfolding feed stored
read =
    feed-request_text Method.get http11 (codes "/x") (codes "q") [] sample-IsTarget no_newline
      no_newline' tt (new_connection false false) request [] refl refl whole_request

abbrev begun_server : Server
begun_server = record (accepted false false) { connection = serving; requesting = true }

begins : Reach (accepted false false) begun_server
begins = next here (reads (accepted false false) true request again [] serving [] refl read)

kept : serving.state ≡ keep_alive
unfolding persists Headers.get
kept = refl

abbrev ended : Connection
ended = record serving { in_use = 0; readfd = false; writefd = false; response_thread = false }

ends : safe_end_connection by_request serving ≡ some ended
unfolding safe_end_connection
ends = refl

time_out_leaks_example :
    ((sweep true true (time_out begun_server ended)).is_freed ≡ false)
    × ((sweep true true (time_out begun_server ended)).listed ≡ true)
    × ((sweep true true (time_out begun_server ended)).connection ≡ ended)
time_out_leaks_example =
    time_out_leaks false false ended begins refl refl refl kept ends
      (next here (sweeps (time_out begun_server ended) true true refl))
