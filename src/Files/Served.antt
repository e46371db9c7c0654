-- ===== src/Files/Served.antt =====
-- src/files.c, `fileHandler`: what it sends.
use cfloor.Base.{
  ℕ, ◌≡◌, ◌⊎◌, refl, sym, ap, ◌∙◌, append-nil, Bool, Option, none, some, List, [], ◌∷◌, ◌++◌, Bytes,
  codes, equal, length, take, take-append, ok,
}
use cfloor.Headers.{Headers, modify, store, find}
use cfloor.Mime.{get_mime_from_file_name}
use cfloor.Number.{decimal, strlen_of_number}
use cfloor.Number.Decimal.{strlen_of_number-decimal}
use cfloor.Files.{
  FileSystem, Stat, regular, file, send, printed, send_sized, send_content, send_file, by_kind,
  file_handler,
}
use cfloor.Files.Paths.{IsLetThrough, normalize_path_iff}

take_all : (s : Bytes) → take (length s) s ≡ s
take_all s = ap (take (length s)) (sym (append-nil s)) ∙ take-append s [] (length s) refl

printed-decimal :
    (n : ℕ)
    → (s : Bytes) × (decimal n ≡ some s) × (printed (decimal n) (strlen_of_number n) ≡ some s)
unfolding printed
printed-decimal n =
    let (s, d, l) = strlen_of_number-decimal n in (s, d, rw (d, l) (ap some (take_all s)))

-- The header fields of a file.
abbrev pub file_headers : Bytes → Bytes → Headers
file_headers mime size =
    record { key = codes "Content-Type"; value = mime }
    ∷ record { key = codes "Content-Length"; value = size }
    ∷ []

send_both :
    (mime size content : Bytes)
    → send mime size content [] ≡ (ok (file (file_headers mime size) content), [])
unfolding modify store find equal
send_both mime size content = refl

-- A request whose path is let through and leads to a regular file that can be opened and whose type
-- is defined: given memory, the answer is the file's content, with its type, and with its size in
-- decimal digits as the Content-Length.
pub file_handler-regular :
    (fs : FileSystem) (root path p mime content : Bytes) (index : Bool) (files : List Bytes)
    (size : ℕ)
    → IsLetThrough fs root path p
    → fs.stat p ≡ some (record { kind = regular; size = size })
    → fs.content p ≡ some content
    → get_mime_from_file_name p ≡ some mime
    → (digits : Bytes) × (decimal size ≡ some digits)
      × (file_handler fs (some root) index files path []
          ≡ (ok (file (file_headers mime digits) content), []))
unfolding file_handler by_kind send_file send_content send_sized
file_handler-regular fs root path p mime content index files size l st c m =
    let (digits, d, shown) = printed-decimal size in
    (
      digits,
      d,
      rw ((normalize_path_iff fs root path p).0.1 l, st, c, m, shown)
          (send_both mime digits content),
    )

-- Where the content of a file that was sent comes from.
pub record IsSent (fs : FileSystem) (root path content : Bytes) : Type 0 where
  pub path_of : Bytes
  pub through : IsLetThrough fs root path path_of
  pub source : Bytes
  pub inside : (source ≡ path_of) ⊎ ((name : Bytes) × (source ≡ path_of ++ (b'/' ∷ name)))
  pub opened : fs.content source ≡ some content

module _ (fs : FileSystem) (p : Bytes) where
  abbrev Below : Option (Bytes × Stat) → Type 0
  Below none = Unit
  Below (some (q, s)) = (name : Bytes) × (q ≡ p ++ (b'/' ∷ name))

  Source : Bytes → Type 0
  Source content =
      (q : Bytes) × ((q ≡ p) ⊎ ((name : Bytes) × (q ≡ p ++ (b'/' ∷ name))))
      × (fs.content q ≡ some content)
