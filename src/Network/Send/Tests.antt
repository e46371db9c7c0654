-- ===== src/Network/Send/Tests.antt =====
-- `sendHeader` of src/networking.c on concrete responses.
use cfloor.Base.{◌≡◌, refl, inl, true, false, some, none, [], ◌∷◌, ◌++◌, codes, ok, err, equal}
use cfloor.Headers
use cfloor.Headers.{Headers, find, store, modify, dump}
use cfloor.Number.{decimal}
use cfloor.Request.{MetaData, get, http11, protocol_string}
use cfloor.Status.{get_status_strings}
use cfloor.Network.{keep_alive, Connection, null_read}
use cfloor.Network.Send.{
  Plumbing, Sent, put_all, frame, open_body, send_head, send_framed, head_text, send_header,
}
use cfloor.Network.Send.Framing.{IsResponse, send_header-IsResponse}
use cfloor.Network.Send.Refused.{send_header_null}

abbrev request : MetaData
request = record {
  method = get;
  protocol = http11;
  path = codes "/";
  query_string = [];
  uri = codes "/?";
}

abbrev serving : Connection
serving = record {
  state = keep_alive;
  in_use = 1;
  readfd = true;
  writefd = true;
  meta_data = some request;
  headers = [];
  current_header = none;
  current_header_length = 0;
  request_thread = true;
  response_thread = true;
  encoder_thread = false;
  is_persistent = true;
  is_chunked = false;
}

abbrev granted : Plumbing
granted = record { dup = true; pipe = true; dup_again = true; fdopen = true; fdopen_again = true }

abbrev server : Headers
server = record { key = codes "Server"; value = codes "CFloor" } ∷ []

-- A response of unknown length goes out in chunks.
chunked_head : send_header granted server 200 [] serving [] ≡ (
  ok (record {
    connection = record serving { encoder_thread = true; is_chunked = true };
    headers =
        server
        ++ (record { key = codes "Connection"; value = codes "keep-alive" }
            ∷ record { key = codes "Transfer-Encoding"; value = codes "chunked" }
            ∷ []);
    written =
        codes
          "HTTP/1.1 200 OK\r\nServer: CFloor\r\nConnection: keep-alive\r\nTransfer-Encoding: chunked\r\n\r\n";
    descriptor = true;
  }),
  [],
)
unfolding send_header put_all frame send_framed open_body send_head modify Headers.get equal
    head_text dump protocol_string decimal get_status_strings
chunked_head = refl

send_header-IsResponse_example :
    (r : Sent) × (send_header granted server 200 [] serving [] ≡ (ok r, []))
    × IsResponse serving 200 r
send_header-IsResponse_example =
    send_header-IsResponse granted server [] 200 serving (refl, refl, refl, refl)

abbrev no_descriptors : Plumbing
no_descriptors = record {
  dup = false;
  pipe = true;
  dup_again = false;
  fdopen = true;
  fdopen_again = true;
}

send_header_null_example : send_header no_descriptors server 200 [] serving [] ≡ (err null_read, [])
send_header_null_example = send_header_null no_descriptors server [] 200 serving (inl refl)
