-- ===== src/Network/Tests.antt =====
-- A connection of src/networking.c on concrete bytes.
use cfloor.Base.{◌≡◌, refl, true, false, none, [], ◌∷◌, ◌++◌, Bytes, codes, has, ok, err}
use cfloor.Headers.Field.{first_other}
use cfloor.Request.{Method, http11, method_string, protocol_string}
use cfloor.Request.RoundTrip.{IsTarget, request_line, with_query}
use cfloor.Network.{opened, Connection, out_of_bounds, Loop, again, data_handler}
use cfloor.Network.Lines.{with_line, text_bytes, settle, taken, reading_of}
use cfloor.Network.Buffer.{data_handler-text_bytes}
use cfloor.Network.Chunks.{feed, feed-data_handler}
use cfloor.Network.LineEnds.{ended_line}
use cfloor.Network.Requests.{
  Field, IsField, request_text, request_data, requested, stored, feed-request_text,
}
use cfloor.Network.Faults.{data_handler_bare_newline}

abbrev idle : Connection
idle = record {
  state = opened;
  in_use = 0;
  readfd = true;
  writefd = true;
  meta_data = none;
  headers = [];
  current_header = none;
  current_header_length = 0;
  request_thread = false;
  response_thread = true;
  encoder_thread = false;
  is_persistent = false;
  is_chunked = false;
}

abbrev host : Field
host = record { key = codes "Host"; value = codes "a.b"; before = 1; behind = 0 }

host-IsField : IsField host
unfolding has first_other
host-IsField = record {
  colon = refl;
  key_nul = refl;
  key_newline = refl;
  value_nul = refl;
  value_newline = refl;
  trimmed = record {
    first = refl;
    front = codes "a.";
    last = b'b';
    splits = refl;
    last_other = refl;
  };
}

sample-IsTarget : IsTarget (codes "/x") (codes "q")
unfolding has
sample-IsTarget = record {
  path_space = (λ e. cc, refl);
  path_hash = refl;
  path_mark = refl;
  path_nul = refl;
  query_space = refl;
  query_hash = refl;
  query_nul = refl;
}

no_newline' : has b'\n' (codes "q") ≡ false
unfolding has
no_newline' = refl

abbrev first_piece : Bytes
first_piece = codes "GET /x?q HTTP/1.1\r"

abbrev second_piece : Bytes
second_piece = codes "\nHost: a.b\r\n\r\n"

no_newline : has b'\n' (codes "/x") ≡ false
unfolding has
no_newline = refl

abbrev whole : Bytes
whole = first_piece ++ second_piece

whole_request : whole ≡ request_text Method.get http11 (codes "/x") (codes "q") (host ∷ [])
unfolding method_string protocol_string
whole_request = refl

abbrev served : Connection
served =
    requested (taken idle) (request_data Method.get http11 (codes "/x") (codes "q"))
      (stored [] (host ∷ []))

at_once : data_handler true (with_line idle []) whole again [] ≡ (ok served, [])
unfolding feed
at_once =
    feed-request_text Method.get http11 (codes "/x") (codes "q") (host ∷ []) sample-IsTarget
      no_newline no_newline' (host-IsField, tt) idle whole [] refl refl whole_request

feed-data_handler_example :
    feed true (with_line idle []) first_piece (second_piece ∷ []) []
    ≡ data_handler true (with_line idle []) whole again []
feed-data_handler_example =
    feed-data_handler true idle [] first_piece (second_piece ∷ []) refl (rw at_once (λ e. cc))

data_handler-text_bytes_example :
    data_handler false (with_line idle (codes "GET /\r")) (codes "\n") again []
    ≡ (settle (text_bytes false (reading_of idle (codes "GET /\r")) (codes "\n")), [])
data_handler-text_bytes_example =
    data_handler-text_bytes false idle (codes "GET /\r") (codes "\n") refl

data_handler_bare_newline_example :
    data_handler true
      (with_line idle [])
      (ended_line (request_line Method.get (with_query (codes "/x") (codes "q")) http11)
        ++ (b'\n' ∷ codes "Host: a.b"))
      again
      []
    ≡ (err out_of_bounds, [])
data_handler_bare_newline_example =
    data_handler_bare_newline Method.get http11 (codes "/x") (codes "q") idle (codes "Host: a.b")
      sample-IsTarget no_newline no_newline' refl refl

abbrev row : Bytes
row = codes "0123456789abcdef0123456789abcdef0123456789abcdef0123456789abcdef"

row_newline : has b'\n' row ≡ false
unfolding has
row_newline = refl

abbrev empty_loop : Loop
empty_loop = record { connection = idle; buffer = []; last = 0 }
