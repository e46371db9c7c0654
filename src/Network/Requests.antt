-- ===== src/Network/Requests.antt =====
-- `dataHandler` of src/networking.c on a request that is written from its parts.
use cfloor.Base.{
  ℕ, ◌≡◌, refl, ◌∙◌, true, false, Option, none, some, List, [], ◌∷◌, ◌++◌, Bytes, codes, has,
  has-append, All, length, if◌then◌else◌, Result, ok, err, Memory, arith,
}
use cfloor.Headers.{Headers, HeadersError, modify}
use cfloor.Headers.Lookup.{modify-total}
use cfloor.Headers.Field.{parse}
use cfloor.Headers.Field.Trimmed.{
  spaces, IsTrimmed, split_colon-append, parse-modify, parse_ample, has-spaces,
}
use cfloor.RealPath.{symbolic_realpath}
use cfloor.Request.{Method, Protocol, MetaData, method_string, protocol_string}
use cfloor.Request.RoundTrip.{
  request_line, IsTarget, with_query, has-other, headers_metadata-request_line,
}
use cfloor.Network.{
  opened, keep_alive, processing, Connection, started, forget_line, persists, start_request_handler,
  headers_complete, read_line, again, data_handler,
}
use cfloor.Network.Lines.{with_line, text_bytes, taken}
use cfloor.Network.Buffer.{data_handler-text_bytes}
use cfloor.Network.Chunks.{feed, joined, feed-data_handler}
use cfloor.Network.LineEnds.{ended_line, reading, text_bytes-line}

-- A field as a client writes it, with any spaces around its value.
pub record Field : Type 0 where
  pub key : Bytes
  pub value : Bytes
  pub before : ℕ
  pub behind : ℕ

pub record IsField (f : Field) : Type 0 where
  pub colon : has b':' f.key ≡ false
  pub key_nul : has 0 f.key ≡ false
  pub key_newline : has b'\n' f.key ≡ false
  pub value_nul : has 0 f.value ≡ false
  pub value_newline : has b'\n' f.value ≡ false
  pub trimmed : IsTrimmed f.value

abbrev pub field_line : Field → Bytes
field_line f = f.key ++ (b':' ∷ (spaces f.before ++ (f.value ++ spaces f.behind)))

-- The fields, and the empty line behind them.
abbrev pub fields_text : List Field → Bytes
fields_text [] = codes "\r\n"
fields_text (f ∷ fs) = ended_line (field_line f) ++ fields_text fs

abbrev pub table_of : Headers → Result HeadersError (ℕ × Headers) × Memory → Headers
table_of hs (ok (i, hs'), h) = hs'
table_of hs (err e, h) = hs

-- The table with each field in turn written by `headers_mod`.
unfoldable pub stored : Headers → List Field → Headers
stored hs [] = hs
stored hs (f ∷ fs) = stored (table_of hs (modify hs f.key f.value [])) fs

-- What a complete request leaves of a connection.
abbrev pub requested : Connection → MetaData → Headers → Connection
requested c m hs =
    let persistent = persists hs m.protocol in
    record (forget_line c) {
      meta_data = some m;
      headers = hs;
      is_persistent = persistent;
      state = if persistent then keep_alive else processing;
      request_thread = true;
    }

abbrev with_fields : Connection → MetaData → Headers → Connection
with_fields c m hs = record c { meta_data = some m; headers = hs }

pub field_line_newline : (f : Field) → IsField f → has b'\n' (field_line f) ≡ false
field_line_newline f h = has-append b'\n' f.key _ h.key_newline (
    has-other b'\n' b':' _ refl (
      has-append b'\n' (spaces f.before) _ (has-spaces b'\n' f.before refl)
        (has-append b'\n' f.value _ h.value_newline (has-spaces b'\n' f.behind refl))))

pub parse-field_line :
    (hs : Headers) (f : Field) → IsField f → parse hs (field_line f) [] ≡ modify hs f.key f.value []
parse-field_line hs f h =
    parse_ample hs (field_line f) f.key _ (split_colon-append f.key _ h.colon)
    ∙ parse-modify hs f.key f.value f.before f.behind [] h.colon h.key_nul h.value_nul h.trimmed

read_line-field :
    (m : MetaData) (c : Connection) (f : Field)
    → IsField f
    → (read_line true (some m) c (field_line f) []).0
      ≡ ok (record c { headers = table_of c.headers (modify c.headers f.key f.value []) })
unfolding read_line
read_line-field m c f h =
    let (i, hs', done) = modify-total c.headers f.key f.value in
    rw (parse-field_line c.headers f h, done)

text_bytes_done :
    (c : Connection) (m : MetaData) (hs : Headers) (last : ℕ)
    → text_bytes true (reading (with_fields c m hs) [] last) (codes "\r\n")
      ≡ err (started (requested c m hs))
unfolding read_line parse headers_complete start_request_handler has
text_bytes_done c m hs last = text_bytes-line true (with_fields c m hs) [] [] last refl

text_bytes-fields :
    (c : Connection) (m : MetaData) (hs : Headers) (fs : List Field) (last : ℕ)
    → All IsField fs
    → text_bytes true (reading (with_fields c m hs) [] last) (fields_text fs)
      ≡ err (started (requested c m (stored hs fs)))
unfolding stored
text_bytes-fields c m hs [] last h = text_bytes_done c m hs last
text_bytes-fields c m hs (f ∷ fs) last h =
    rw
      (
        text_bytes-line true (with_fields c m hs) (field_line f) (fields_text fs) last
            (field_line_newline f h.0),
        read_line-field m
            (record (with_fields c m hs) {
              current_header = some (field_line f);
              current_header_length = length (field_line f);
            })
            f h.0,
      )
      (text_bytes-fields (forget_line c) m _ fs b'\r' h.1)

-- The request as a client writes it.
abbrev pub request_text : Method → Protocol → Bytes → Bytes → List Field → Bytes
request_text m p path query fs =
    ended_line (request_line m (with_query path query) p) ++ fields_text fs

abbrev pub request_data : Method → Protocol → Bytes → Bytes → MetaData
request_data m p path query = record {
  method = m;
  protocol = p;
  path = symbolic_realpath path;
  query_string = query;
  uri = symbolic_realpath path ++ (b'?' ∷ query);
}

method_newline : (m : Method) → has b'\n' (method_string m) ≡ false
unfolding has method_string
method_newline m = ground arith

protocol_newline : (p : Protocol) → has b'\n' (protocol_string p) ≡ false
unfolding has protocol_string
protocol_newline p = ground arith

pub request_line_newline :
    (m : Method) (p : Protocol) (path query : Bytes)
    → has b'\n' path ≡ false
    → has b'\n' query ≡ false
    → has b'\n' (request_line m (with_query path query) p) ≡ false
request_line_newline m p path query h k = has-append b'\n' (method_string m) _ (method_newline m) (
    has-other b'\n' b' ' _ refl (
      has-append b'\n' (with_query path query) _
        (has-append b'\n' path _ h (has-other b'\n' b'?' query refl k))
        (has-other b'\n' b' ' (protocol_string p) refl (protocol_newline p))))

pub read_line-request :
    (m : Method) (p : Protocol) (path query : Bytes) (old : Option MetaData) (c : Connection)
    → IsTarget path query
    → old ≡ none
    → (read_line true old c (request_line m (with_query path query) p) []).0
      ≡ ok (record c { meta_data = some (request_data m p path query) })
unfolding read_line
read_line-request m p path query none c t fresh =
    rw (headers_metadata-request_line m p path query t)
read_line-request m p path query (some d) c t fresh = cc

module _ (m : Method) (p : Protocol) (path query : Bytes) (fs : List Field)
    (t : IsTarget path query) (path_newline : has b'\n' path ≡ false)
    (query_newline : has b'\n' query ≡ false) (fields : All IsField fs) where
  text_bytes-request :
      (c : Connection)
      → c.meta_data ≡ none
      → text_bytes true (reading c [] 0) (request_text m p path query fs)
        ≡ err (started (requested c (request_data m p path query) (stored c.headers fs)))
  text_bytes-request c fresh =
      let line = request_line m (with_query path query) p in
      rw
        (
          text_bytes-line true c line (fields_text fs) 0
              (request_line_newline m p path query path_newline query_newline),
          read_line-request m p path query c.meta_data
              (record c { current_header = some line; current_header_length = length line }) t
              fresh,
        )
        (text_bytes-fields (forget_line c) (request_data m p path query) c.headers fs b'\r' fields)

  pub feed-request_text :
      (c : Connection) (first : Bytes) (rest : List Bytes)
      → c.state ≡ opened
      → c.meta_data ≡ none
      → joined first rest ≡ request_text m p path query fs
      → feed true (with_line c []) first rest []
        ≡ (ok (requested (taken c) (request_data m p path query) (stored c.headers fs)), [])
  feed-request_text c first rest o fresh pieces =
      let done : data_handler true (with_line c []) (joined first rest) again []
          ≡ (ok (requested (taken c) (request_data m p path query) (stored c.headers fs)), []) =
        data_handler-text_bytes true c [] (joined first rest) o
        ∙ rw (pieces, text_bytes-request (taken c) fresh) in
      feed-data_handler true c [] first rest o (rw done (λ e. cc)) ∙ done
