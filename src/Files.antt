-- ===== src/Files.antt =====
-- src/files.c, `normalizePath` and `fileHandler`: which file a request is answered with. The file
-- system is a parameter, and the answer stands for what is sent. A failed `headers_mod` is ignored,
-- as in the code.
pub mod Paths
pub mod Served
mod Index
mod Order
mod Tests
use cfloor.Base.{
  ℕ, zero, ◌+◌, Bool, true, false, ◌&&◌, Option, none, some, List, [], ◌∷◌, ◌++◌, Bytes, codes,
  length, take, strip_prefix, Memory, Result, ok, err, Alloc, ◌>>=◌, ◌>>◌, return, fail, allocate,
  resume,
}
use cfloor.Headers.{Headers, HeadersError, headers_create, modify}
use cfloor.Mime.{get_mime_from_file_name}
use cfloor.Number.{decimal, strlen_of_number}

-- `errno`, as far as it is looked at: EACCES, and ENOENT or ENOTDIR.
pub data Errno : Type 0 where
  denied missing other : Errno

pub data Kind : Type 0 where
  regular directory special : Kind

pub record Stat : Type 0 where
  pub kind : Kind
  pub size : ℕ

-- `realpath`, `access` for reading (none for success), `stat` and the content behind `open`.
pub record FileSystem : Type 0 where
  pub realpath : Bytes → Result Errno Bytes
  pub access : Bytes → Option Errno
  pub stat : Bytes → Option Stat
  pub content : Bytes → Option Bytes

-- A status page, the answer of `fuckyouHandler`, a file, a listing of a directory, or undefined
-- behaviour of the MIME table.
pub data Reply : Type 0 where
  status : ℕ → Reply
  bad_request undefined : Reply
  file : Headers → Bytes → Reply
  listing : Bytes → Reply

unfoldable pub status_of : Errno → Reply
status_of denied = status 403
status_of missing = status 404
status_of other = status 500

-- `strncmp(documentRoot, path, strlen(documentRoot))`, and whether the file can be read.
unfoldable pub check_path : FileSystem → Option Bytes → Bytes → Alloc Reply Bytes
check_path fs none path = fail bad_request
check_path fs (some rest) path = elim (fs.access path) [
  | none ↦ return path
  | some e ↦ fail (status_of e)
]

unfoldable pub resolved : FileSystem → Bytes → Result Errno Bytes → Alloc Reply Bytes
resolved fs document_root (err e) = fail (status_of e)
resolved fs document_root (ok path) = check_path fs (strip_prefix document_root path) path

unfoldable pub normalize_path : FileSystem → Option Bytes → Bytes → Alloc Reply Bytes
normalize_path fs none path = fail (status 500)
normalize_path fs (some document_root) path = do
  allocate (status 500)
  resolved fs document_root (fs.realpath (document_root ++ (b'/' ∷ path)))

-- Can it be read, and is it a regular file?
abbrev pub is_regular : Option Stat → Option Stat
is_regular none = none
is_regular (some s) = elim s.kind [ regular ↦ some s | directory ↦ none | special ↦ none ]

abbrev pub readable : FileSystem → Bytes → Option Stat
readable fs path = elim (fs.access path) [ none ↦ is_regular (fs.stat path) | some e ↦ none ]

-- The first index file there is. One whose name cannot be allocated is passed over.
unfoldable pub find_index :
    FileSystem → Bytes → List Bytes → Memory → Option (Bytes × Stat) × Memory
find_index fs path [] h = (none, h)
find_index fs path (f ∷ names) (false ∷ h) = find_index fs path names h
find_index fs path (f ∷ names) (true ∷ h) =
    let name = path ++ (b'/' ∷ f) in
    let rest = find_index fs path names h in
    elim (readable fs name) [ none ↦ rest | some s ↦ (some (name, s), h) ]
find_index fs path (f ∷ names) [] =
    let name = path ++ (b'/' ∷ f) in
    let rest = find_index fs path names [] in
    elim (readable fs name) [ none ↦ rest | some s ↦ (some (name, s), []) ]

-- What is left of the headers, whether the change was made or not.
abbrev pub kept : Headers → Result HeadersError (ℕ × Headers) → Headers
kept hs (ok (i, hs')) = hs'
kept hs (err e) = hs

-- The header fields, and the file behind them.
abbrev pub send : Bytes → Bytes → Bytes → Alloc Reply Reply
send mime size content h =
    let first : Result HeadersError (ℕ × Headers) × Memory =
      modify headers_create (codes "Content-Type") mime h in
    let hs : Headers = kept headers_create first.0 in
    let second : Result HeadersError (ℕ × Headers) × Memory =
      modify hs (codes "Content-Length") size first.1 in
    (ok (file (kept hs second.0) content), second.1)

-- The size in a buffer of `strlenOfNumber` bytes and a NUL.
unfoldable pub printed : Option Bytes → Option ℕ → Option Bytes
printed (some s) (some n) = some (take n s)
printed (some s) none = none
printed none n = none

unfoldable pub send_sized : Option Bytes → Option Bytes → Bytes → Alloc Reply Reply
send_sized (some mime) (some size) content = send mime size content
send_sized (some mime) none content = return undefined
send_sized none size content = return undefined

unfoldable pub send_content : Bytes → ℕ → Option Bytes → Alloc Reply Reply
send_content path size none = return (status 500)
send_content path size (some content) = do
  allocate (status 500)
  send_sized (get_mime_from_file_name path) (printed (decimal size) (strlen_of_number size)) content

unfoldable pub send_file : FileSystem → Bytes → Stat → Alloc Reply Reply
send_file fs path s = send_content path s.size (fs.content path)

unfoldable pub in_directory : FileSystem → Bool → Bytes → Option (Bytes × Stat) → Alloc Reply Reply
in_directory fs index path (some (name, s)) = send_file fs name s
in_directory fs true path none = return (listing path)
in_directory fs false path none = return (status 403)

unfoldable pub by_kind : FileSystem → Bool → List Bytes → Bytes → Option Stat → Alloc Reply Reply
by_kind fs index files path none h = (ok (status 500), h)
by_kind fs index files path (some s) h = elim s.kind [
  | regular ↦ send_file fs path s h
  | directory ↦ let found = find_index fs path files h in in_directory fs index path found.0 found.1
  | special ↦ (ok (status 500), h)
]

-- An error is a reply as well, which has been sent by then. `index` says whether directories are
-- listed, `files` are the names of the index files.
unfoldable pub file_handler :
    FileSystem → Option Bytes → Bool → List Bytes → Bytes → Alloc Reply Reply
file_handler fs document_root index files path = do
  p ← normalize_path fs document_root path
  by_kind fs index files p (fs.stat p)
