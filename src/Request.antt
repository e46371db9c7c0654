-- ===== src/Request.antt =====
-- src/headers.c, `headers_metadata`, `methodString` and `protocolString`, with the types of
-- src/misc.h: the first line of a request.
pub mod Tokens
pub mod RoundTrip
pub mod Faults
pub mod Skipped
mod Tests
use cfloor.Base.{
  ℕ, ◌+◌, Bool, true, false, ◌&&◌, Option, none, some, List, [], ◌∷◌, ◌++◌, Bytes, codes, equal,
  has, c_string, length, Memory, Alloc, Result, ok, err, ◌>>=◌, ◌>>◌, return, fail, allocate,
  if◌then◌else◌, ltb, ◌==◌,
}
use cfloor.RealPath.{symbolic_realpath}

pub data Method : Type 0 where
  get head post put delete connect options trace patch : Method

pub data Protocol : Type 0 where
  http10 http11 : Protocol

pub record MetaData : Type 0 where
  pub method : Method
  pub protocol : Protocol
  pub path : Bytes
  pub query_string : Bytes
  pub uri : Bytes

-- HEADERS_PARSE_ERROR, HEADERS_ALLOC_ERROR, and the call of `strlen` on the NULL that `strtok`
-- returns for a text of delimiters only, where the program crashes.
pub data MetaError : Type 0 where
  parse_error alloc_error null_string : MetaError

unfoldable pub method_string : Method → Bytes
method_string get = codes "GET"
method_string head = codes "HEAD"
method_string post = codes "POST"
method_string put = codes "PUT"
method_string delete = codes "DELETE"
method_string connect = codes "CONNECT"
method_string options = codes "OPTIONS"
method_string trace = codes "TRACE"
method_string patch = codes "PATCH"

unfoldable pub protocol_string : Protocol → Bytes
protocol_string http10 = codes "HTTP/1.0"
protocol_string http11 = codes "HTTP/1.1"

-- The chain of `strcmp` on the first token.
unfoldable pub method_of : Bytes → Option Method
method_of s =
    if equal s (codes "GET")
    then some get
    else if equal s (codes "HEAD")
    then some head
    else if equal s (codes "POST")
    then some post
    else if equal s (codes "PUT")
    then some put
    else if equal s (codes "DELETE")
    then some delete
    else if equal s (codes "CONNECT")
    then some connect
    else if equal s (codes "OPTIONS")
    then some options
    else if equal s (codes "TRACE")
    then some trace
    else if equal s (codes "PATCH")
    then some patch
    else none

unfoldable pub protocol_of : Bytes → Option Protocol
protocol_of s =
    if equal s (codes "HTTP/1.0")
    then some http10
    else if equal s (codes "HTTP/1.1")
    then some http11
    else none

-- The delimiters at the front, and the text behind them.
unfoldable pub leading : ℕ → Bytes → Bytes
leading d [] = []
leading d (c ∷ cs) = if c == d then c ∷ leading d cs else []

unfoldable pub skip : ℕ → Bytes → Bytes
skip d [] = []
skip d (c ∷ cs) = if c == d then skip d cs else c ∷ cs

-- The bytes before the first delimiter, and those behind it.
unfoldable pub before : ℕ → Bytes → Bytes
before d [] = []
before d (c ∷ cs) = if c == d then [] else c ∷ before d cs

unfoldable pub behind : ℕ → Bytes → Bytes
behind d [] = []
behind d (c ∷ cs) = if c == d then cs else behind d cs

unfoldable pub token_at : ℕ → Bytes → Option (Bytes × Bytes)
token_at d [] = none
token_at d (c ∷ cs) = some (before d (c ∷ cs), behind d (c ∷ cs))

-- `strtok` with one delimiter: the token, and the text that the next call goes on with.
unfoldable pub strtok : ℕ → Bytes → Option (Bytes × Bytes)
unfolding token_at before behind skip
strtok d s = token_at d (skip d s)

-- The bytes of the line that the parser works with. `target` is the second token as it stands,
-- `after` what follows its terminator up to the next one: spaces and the protocol.
pub record Parts : Type 0 where
  pub method : Bytes
  pub target : Bytes
  pub protocol : Bytes
  pub after : Bytes

abbrev or_fail : {A : Type 0} → Option A → MetaError → Alloc MetaError A
or_fail none e = fail e
or_fail (some a) e = return a

-- A fourth token is an error.
abbrev no_more : Option (Bytes × Bytes) → Parts → Alloc MetaError Parts
no_more none parts = return parts
no_more (some t) parts = fail parse_error

-- The four calls of `strtok` on spaces.
unfoldable pub split_line : Bytes → Alloc MetaError Parts
split_line line = do
  (method, rest) ← or_fail (strtok b' ' line) parse_error
  (target, rest') ← or_fail (strtok b' ' rest) parse_error
  (protocol, rest'') ← or_fail (strtok b' ' rest') parse_error
  no_more (strtok b' ' rest'') (record {
    method = method;
    target = target;
    protocol = protocol;
    after = leading b' ' rest' ++ protocol;
  })

-- The C string that begins one byte behind the terminator of the text before "#".
unfoldable pub over_read : Parts → Bytes
unfolding behind skip
over_read p = let text = skip b'#' p.target in if has b'#' text then behind b'#' text else p.after

-- Path and query. The query is looked for behind the path's terminator whenever the path is shorter
-- than the text, also where it is so because "?" was skipped at the front.
unfoldable pub split_query : Bytes → Bytes → Alloc MetaError (Bytes × Bytes)
split_query text over = do
  (path, query) ← or_fail (strtok b'?' text) null_string
  let found = if has b'?' (skip b'?' text) then query else over
  return (path, if ltb (length path) (length text) then found else [])

unfoldable pub split_target : Parts → Alloc MetaError (Bytes × Bytes)
split_target p = do
  (text, fragment) ← or_fail (strtok b'#' p.target) null_string
  split_query text (over_read p)

-- The fields, once method and protocol are known: the three allocations, and the three texts.
unfoldable pub meta_data : Method → Protocol → Bytes → Bytes → Alloc MetaError MetaData
meta_data method protocol target query = do
  allocate alloc_error
  allocate alloc_error
  allocate alloc_error
  let path = symbolic_realpath target
  return (record {
    method = method;
    protocol = protocol;
    path = path;
    query_string = query;
    uri = path ++ (b'?' ∷ query);
  })

unfoldable pub headers_metadata : Bytes → Alloc MetaError MetaData
headers_metadata header = do
  parts ← split_line (c_string header)
  (target, query) ← split_target parts
  method ← or_fail (method_of parts.method) parse_error
  protocol ← or_fail (protocol_of parts.protocol) parse_error
  meta_data method protocol target query

-- The bytes that the code allocates for the URI, its terminator included.
unfoldable pub uri_size : Bytes → Bytes → ℕ
uri_size target query = length target + 1 + length query + 1
