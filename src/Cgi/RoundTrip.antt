-- ===== src/Cgi/RoundTrip.antt =====
-- `cgiHandler` of src/cgi.c on the output of a script that is written from its parts.
use cfloor.Base.{◌≤◌, ◌≡◌, Bool, true, false, List, [], ◌∷◌, ◌++◌, Bytes, codes, has, length}
use cfloor.Headers.{Headers}
use cfloor.Network.Requests.{Field, IsField, field_line}
use cfloor.Cgi.{Reader}

-- A line of the script ends with "\n" or with "\r\n".
pub record Line : Type 0 where
  pub field : Field
  pub crlf : Bool

abbrev pub line_end : Bool → Bytes
line_end true = codes "\r\n"
line_end false = codes "\n"

abbrev pub lines_text : List Line → Bool → Bytes
lines_text [] crlf = line_end crlf
lines_text (l ∷ ls) crlf = field_line l.field ++ (line_end l.crlf ++ lines_text ls crlf)

abbrev pub fields_of : List Line → List Field
fields_of [] = []
fields_of (l ∷ ls) = l.field ∷ fields_of ls

-- A field that fits the buffer and has no '\r' in it, which the reader drops.
pub record IsLine (l : Line) : Type 0 where
  pub field : IsField l.field
  pub key_return : has b'\r' l.field.key ≡ false
  pub value_return : has b'\r' l.field.value ≡ false
  pub fits : length (field_line l.field) ≤ 510

abbrev reader : Headers → Bytes → Bool → Reader
reader hs buffer was_line_end = record {
  headers = hs;
  buffer = buffer;
  was_line_end = was_line_end;
}
