-- ===== src/Cgi/Tests.antt =====
-- Scripts of src/cgi.c on concrete output.
use cfloor.Base.{
  ◌≡◌, refl, true, false, none, some, [], codes, ok, has, equal, strip_prefix, c_string,
}
use cfloor.Headers
use cfloor.Headers.Field.{parse}
use cfloor.Files.{FileSystem, regular, normalize_path, check_path, resolved}
use cfloor.Request.{Method, http11}
use cfloor.Cgi.{
  read_head, read_byte, end_line, strtol_int, signed_value, status_of_head, Response, read_output,
}
use cfloor.Cgi.Handler.{ScriptRequest, System, cgi_handler}
use cfloor.Cgi.RoundTrip.{Line}
use cfloor.Cgi.Status.{IsStatus, read_output-IsStatus}
use cfloor.Cgi.Allowed.{IsRun, cgi_handler-IsRun}

abbrev kind : Line
kind = record {
  field = record { key = codes "Kind"; value = codes "text"; before = 1; behind = 0 };
  crlf = true;
}

abbrev missing_page : Response
missing_page = record { status_code = 404; headers = []; body = codes "no" }

missing_read : read_output (codes "Status: 404 Not Found\n\nno") [] ≡ (ok missing_page, [])
unfolding read_output read_head read_byte end_line parse Headers.modify Headers.store Headers.find
    Headers.get Headers.remove equal status_of_head strtol_int signed_value has c_string
missing_read = refl

-- The status 4294967496 is 200 in an int of 32 bits.
wrapped : strtol_int (codes " 4294967496 Fine") ≡ 200
unfolding strtol_int signed_value
wrapped = refl

read_output-IsStatus_example : IsStatus 404
read_output-IsStatus_example =
    read_output-IsStatus (codes "Status: 404 Not Found\n\nno") [] [] missing_page missing_read

abbrev small : FileSystem
small = record {
  realpath = λ p. ok (codes "/w/a");
  access = λ p. none;
  stat = λ p. some (record { kind = regular; size = 5 });
  content = λ p. some p;
}

abbrev system : System
system = record {
  executable = λ p. none;
  pipe = true;
  fork = true;
  run = λ p e. codes "Status: 404 Not Found\n\nno";
}

abbrev request : ScriptRequest
request = record {
  meta_data = record {
    method = Method.get;
    protocol = http11;
    path = codes "/a";
    query_string = [];
    uri = codes "/a?";
  };
  headers = [];
  ssl = false;
  peer_addr = codes "::1";
  peer_name = [];
  peer_port = codes "80";
}

handled : cgi_handler small system (codes "/w") request [] ≡ (ok missing_page, [])
unfolding cgi_handler normalize_path resolved check_path strip_prefix
handled = missing_read

cgi_handler-IsRun_example : IsRun small system (codes "/w") request [] missing_page []
cgi_handler-IsRun_example =
    cgi_handler-IsRun small system (codes "/w") request [] [] missing_page handled
