-- ===== src/Mime/Extension.antt =====
-- Which type `getMineFromFileName` gives to a file name.
use cfloor.Base.{
  ℕ, zero, suc, ◌≡◌, refl, ap, sym, ◌∙◌, Bool, true, false, Option, none, some, List, [], ◌∷◌, ◌++◌,
  Bytes, equal, has, length, take, drop, All, if◌then◌else◌, ◌==◌, arith,
}
use cfloor.Mime.{
  Mime, mimelist, unknown_mime, last_extension, hit, miss, search_extensions, search_mimes,
  get_mime_from_file_name,
}

pub contains : List Bytes → Bytes → Bool
contains [] x = false
contains (e ∷ es) x = if equal x e then true else contains es x

-- The type of the first entry that lists the extension.
pub first_mime : Bytes → List Mime → Option Bytes
unfolding contains
first_mime x [] = none
first_mime x (m ∷ ms) = if contains m.extensions x then some m.mime else first_mime x ms

abbrev Complete : Mime → Type 0
Complete m = m.number ≡ length m.extensions

search_complete :
    (x : Bytes) (n : ℕ) (es : List Bytes)
    → n ≡ length es
    → search_extensions x n es ≡ (if contains es x then hit else miss)
unfolding search_extensions contains
search_complete x zero [] h = refl
search_complete x zero (e ∷ es) h = absurd (omega arith)
search_complete x (suc n) [] h = absurd (omega arith)
search_complete x (suc n) (e ∷ es) h = ground (arith, search_complete x n es)

abbrev or_else : Option Bytes → Option Bytes → Option Bytes
or_else none b = b
or_else (some a) b = some a

search_mimes-append :
    (x : Bytes) (ms tail : List Mime)
    → All Complete ms
    → search_mimes x (ms ++ tail) ≡ or_else (first_mime x ms) (search_mimes x tail)
unfolding search_mimes first_mime
search_mimes-append x [] tail h = refl
search_mimes-append x (m ∷ ms) tail h =
    ground (arith, search_complete x m.number m.extensions h.0, search_mimes-append x ms tail h.1)

last_extension_other : (e : Option Bytes) (x : Bytes) → has b'.' x ≡ false → last_extension e x ≡ e
unfolding last_extension has
last_extension_other e [] h = refl
last_extension_other e (c ∷ x) h = ground (arith, last_extension_other e x)

last_extension-append :
    (e : Option Bytes) (stem x : Bytes)
    → has b'.' x ≡ false
    → last_extension e (stem ++ (b'.' ∷ x)) ≡ some x
unfolding last_extension
last_extension-append e [] x h = last_extension_other (some x) x h
last_extension-append e (c ∷ stem) x h =
    last_extension-append (if c == b'.' then some (stem ++ (b'.' ∷ x)) else e) stem x h

-- The entries up to "audio/mp4", which claims four extensions and has two.
abbrev pub reached : List Mime
reached = take 14 mimelist

first_mime-append :
    (x : Bytes) (ms tail : List Mime)
    → first_mime x (ms ++ tail) ≡ or_else (first_mime x ms) (first_mime x tail)
unfolding first_mime
first_mime-append x [] tail = refl
first_mime-append x (m ∷ ms) tail = ground (arith, first_mime-append x ms tail)

-- At "audio/mp4" the search ends, one way or the other.
search_mimes-mp4 : (x : Bytes) → search_mimes x (drop 13 mimelist) ≡ first_mime x (drop 13 reached)
unfolding search_mimes search_extensions first_mime contains
search_mimes-mp4 x = ground arith

search_mimes-reached : (x : Bytes) → search_mimes x mimelist ≡ first_mime x reached
search_mimes-reached x =
    search_mimes-append x (take 13 mimelist) (drop 13 mimelist) (
      refl,
      (
        refl,
        (refl, (refl, (refl, (refl, (refl, (refl, (refl, (refl, (refl, (refl, (refl, tt))))))))))),
      ),
    )
    ∙ ap (or_else (first_mime x (take 13 mimelist))) (search_mimes-mp4 x)
    ∙ sym (first_mime-append x (take 13 reached) (drop 13 reached))

-- A name whose last dot is followed by a text with no dot gets the type of the first entry that
-- lists this text, among the entries up to "audio/mp4". If none of these lists it the code reads
-- behind the array of that entry, and the result is undefined.
pub get_mime-extension :
    (stem x : Bytes)
    → has b'.' x ≡ false
    → get_mime_from_file_name (stem ++ (b'.' ∷ x)) ≡ first_mime x reached
unfolding get_mime_from_file_name
get_mime-extension stem x h =
    rw (last_extension-append none stem x h, get_mime_from_file_name) (search_mimes-reached x)

-- A name with no dot is of unknown type.
pub get_mime_plain :
    (name : Bytes) → has b'.' name ≡ false → get_mime_from_file_name name ≡ some unknown_mime
unfolding get_mime_from_file_name
get_mime_plain name h = rw (last_extension_other none name h, get_mime_from_file_name)
