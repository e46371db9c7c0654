-- ===== src/Mime.antt =====
-- src/mime.c: the table of file types and `getMineFromFileName`. The table keeps the length that
-- each entry claims beside its array of extensions.
pub mod Extension
mod Tests
use Prim.Native.String.{String}
use cfloor.Base.{
  ℕ, zero, suc, Option, none, some, List, [], ◌∷◌, map, Bytes, codes, equal, if◌then◌else◌, ◌==◌,
}

pub record Mime : Type 0 where
  pub mime : Bytes
  pub number : ℕ
  pub extensions : List Bytes

abbrev entry : String → ℕ → List String → Mime
entry m n es = record { mime = codes m; number = n; extensions = map codes es }

abbrev pub mimelist : List Mime
mimelist =
    entry "application/pdf" 1 ("pdf" ∷ [])
    ∷ entry "text/css" 1 ("css" ∷ [])
    ∷ entry "text/html" 2 ("html" ∷ "htm" ∷ [])
    ∷ entry "application/javascript" 1 ("js" ∷ [])
    ∷ entry "application/json" 1 ("json" ∷ [])
    ∷ entry "application/xml" 1 ("xml" ∷ [])
    ∷ entry "image/jpeg" 2 ("jpg" ∷ "jpeg" ∷ [])
    ∷ entry "image/gif" 1 ("gif" ∷ [])
    ∷ entry "image/x-icon" 1 ("ico" ∷ [])
    ∷ entry "image/png" 1 ("png" ∷ [])
    ∷ entry "image/svg+xml" 1 ("svg" ∷ [])
    ∷ entry "audio/mpeg" 1 ("mpga" ∷ [])
    ∷ entry "video/mpeg" 1 ("mpeg" ∷ [])
    ∷ entry "audio/mp4" 4 ("mp4a" ∷ "m4a" ∷ [])
    ∷ entry "video/mp4" 1 ("mp4" ∷ [])
    ∷ entry "video/webm" 1 ("webm" ∷ [])
    ∷ entry "audio/aac" 1 ("aac" ∷ [])
    ∷ entry "text/plain" 1 ("txt" ∷ [])
    ∷ entry "audio/ogg" 2 ("oga" ∷ "ogg" ∷ [])
    ∷ entry "video/ogg" 1 ("ogv" ∷ [])
    ∷ entry "image/tiff" 2 ("tif" ∷ "tiff" ∷ [])
    ∷ entry "audio/wav" 1 ("wav" ∷ [])
    ∷ entry "audio/webm" 1 ("weba" ∷ [])
    ∷ entry "image/webm" 1 ("webp" ∷ [])
    ∷ entry "application/xhtml+xml" 1 ("xhtml" ∷ [])
    ∷ entry "audio/aac" 1 ("aac" ∷ [])
    ∷ []

abbrev pub unknown_mime : Bytes
unknown_mime = codes "application/octet-stream"

-- The text behind the last dot, if there is one: each round of `strcasestr` finds the next dot.
unfoldable pub last_extension : Option Bytes → Bytes → Option Bytes
last_extension extension [] = extension
last_extension extension (c ∷ cs) = last_extension (if c == b'.' then some cs else extension) cs

-- The inner loop: `beyond` is a read behind the end of the array.
pub data Search : Type 0 where
  hit miss beyond : Search

unfoldable pub search_extensions : Bytes → ℕ → List Bytes → Search
search_extensions extension zero es = miss
search_extensions extension (suc n) [] = beyond
search_extensions extension (suc n) (e ∷ es) =
    if equal extension e then hit else search_extensions extension n es

-- `none`: the search has read behind the end of an array, and its result is undefined.
unfoldable pub search_mimes : Bytes → List Mime → Option Bytes
unfolding search_extensions
search_mimes extension [] = some unknown_mime
search_mimes extension (m ∷ ms) = elim (search_extensions extension m.number m.extensions) [
  | hit ↦ some m.mime
  | miss ↦ search_mimes extension ms
  | beyond ↦ none
]

unfoldable pub get_mime_from_file_name : Bytes → Option Bytes
get_mime_from_file_name filename = elim (last_extension none filename) [
  | none ↦ some unknown_mime
  | some extension ↦ search_mimes extension mimelist
]
