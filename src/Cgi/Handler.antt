-- ===== src/Cgi/Handler.antt =====
-- src/cgi.c, `cgiHandler` up to the start of the script: the checks on the file, and the environment
-- that the script gets.
use cfloor.Base.{
  Bool, true, false, Option, none, some, List, [], ◌∷◌, Bytes, codes, if◌then◌else◌, Alloc, ◌>>=◌,
  ◌>>◌, return, fail,
}
use cfloor.Headers.{Headers, get}
use cfloor.Files.{
  FileSystem, Errno, denied, missing, other, Kind, regular, directory, special, Stat, Reply,
  normalize_path,
}
use cfloor.Request.{MetaData, method_string, protocol_string}
use cfloor.Cgi.{Response, read_output}

-- What the request brings for the environment.
pub record ScriptRequest : Type 0 where
  pub meta_data : MetaData
  pub headers : Headers
  pub ssl : Bool
  pub peer_addr : Bytes
  pub peer_name : Bytes
  pub peer_port : Bytes

abbrev or_empty : Option Bytes → Bytes
or_empty none = []
or_empty (some v) = v

unfoldable pub environment : Bytes → ScriptRequest → List (Bytes × Bytes)
environment document_root r =
    let field : Bytes → Bytes → Bytes × Bytes = λ name key. (name, or_empty (get r.headers key)) in
    (codes "GATEWAY_INTERFACE", codes "CGI/1.1")
    ∷ (codes "DOCUMENT_ROOT", document_root)
    ∷ (codes "HTTPS", if r.ssl then codes "on" else codes "off")
    ∷ (codes "QUERY_STRING", r.meta_data.query_string)
    ∷ (codes "REQUEST_METHOD", method_string r.meta_data.method)
    ∷ (codes "REQUEST_URI", r.meta_data.uri)
    ∷ (codes "REMOTE_ADDR", r.peer_addr)
    ∷ (codes "REMOTE_HOST", r.peer_name)
    ∷ (codes "REMOTE_PORT", r.peer_port)
    ∷ (codes "SCRIPT_NAME", r.meta_data.path)
    ∷ (codes "SERVER_PROTOCOL", protocol_string r.meta_data.protocol)
    ∷ (codes "SERVER_NAME", [])
    ∷ (codes "SERVER_ADMIN", [])
    ∷ (codes "SERVER_ADDR", [])
    ∷ (codes "SERVER_PORT", [])
    ∷ (codes "SERVER_SIGNATURE", [])
    ∷ (codes "SERVER_SOFTWARE", [])
    ∷ (codes "REDIRECT_REMOTE_USER", [])
    ∷ (codes "REMOTE_USER", [])
    ∷ field (codes "HTTP_ACCEPT_CHARSET") (codes "Accept-Charset")
    ∷ field (codes "HTTP_ACCEPT_ENCODING") (codes "Accept-Encoding")
    ∷ field (codes "HTTP_ACCEPT_LANGUAGE") (codes "Accept-Language")
    ∷ field (codes "HTTP_CONNECTION") (codes "Accept-Connection")
    ∷ field (codes "HTTP_ACCEPT") (codes "Accept")
    ∷ field (codes "HTTP_HOST") (codes "Host")
    ∷ field (codes "HTTP_USER_AGENT") (codes "User-Agent")
    ∷ field (codes "HTTP_COOKIE") (codes "Cookie")
    ∷ field (codes "CONTENT_TYPE") (codes "Content-Type")
    ∷ field (codes "CONTENT_LENGTH") (codes "Content-Length")
    ∷ []

-- What the system does: whether a file can be executed, whether pipe and fork succeed, and the output
-- of the script.
pub record System : Type 0 where
  pub executable : Bytes → Option Errno
  pub pipe : Bool
  pub fork : Bool
  pub run : Bytes → List (Bytes × Bytes) → Bytes

abbrev pub check_executable : Option Errno → Alloc Reply (Unit {0})
check_executable none = return tt
check_executable (some denied) = fail (Reply.status 403)
check_executable (some missing) = fail (Reply.status 500)
check_executable (some other) = fail (Reply.status 500)

abbrev pub check_kind : Kind → Alloc Reply (Unit {0})
check_kind regular = return tt
check_kind directory = fail (Reply.status 403)
check_kind special = fail (Reply.status 403)

abbrev pub check_stat : Option Stat → Alloc Reply (Unit {0})
check_stat none = fail (Reply.status 500)
check_stat (some s) = check_kind s.kind

abbrev pub granted : Bool → Alloc Reply (Unit {0})
granted true = return tt
granted false = fail (Reply.status 500)

unfoldable pub cgi_handler : FileSystem → System → Bytes → ScriptRequest → Alloc Reply Response
cgi_handler fs system document_root r = do
  path ← normalize_path fs (some document_root) r.meta_data.path
  check_executable (system.executable path)
  check_stat (fs.stat path)
  granted system.pipe
  granted system.fork
  read_output (system.run path (environment document_root r))
