-- ===== src/Request/Tokens.antt =====
-- `strtok` on texts whose tokens are known, and the tables of method and protocol names.
use cfloor.Base.{
  ℕ, ◌≡◌, ◌≢◌, ◌↔◌, refl, ap, false, none, some, [], ◌∷◌, ◌++◌, Bytes, codes, equal, equal_iff, has,
  arith,
}
use cfloor.Request.{
  Method, get, head, post, put, delete, connect, options, trace, patch, Protocol, http10, http11,
  method_string, protocol_string, method_of, protocol_of, skip, leading, before, behind, token_at,
  strtok,
}

-- Not empty, and free of the delimiter.
abbrev pub IsToken : ℕ → Bytes → Type 0
IsToken d t = (t ≢ []) × (has d t ≡ false)

pub skip-IsToken : (d : ℕ) (t r : Bytes) → IsToken d t → skip d (t ++ r) ≡ t ++ r
unfolding skip has
skip-IsToken d [] r h = absurd (h.0 refl)
skip-IsToken d (c ∷ t) r h = ground arith

pub leading_token : (d : ℕ) (t : Bytes) → IsToken d t → leading d t ≡ []
unfolding leading has
leading_token d [] h = absurd (h.0 refl)
leading_token d (c ∷ t) h = ground arith

before-append : (d : ℕ) (t r : Bytes) → has d t ≡ false → before d (t ++ (d ∷ r)) ≡ t
unfolding before has
before-append d [] r h = ground arith
before-append d (c ∷ t) r h = ground (arith, before-append d t r)

behind-append : (d : ℕ) (t r : Bytes) → has d t ≡ false → behind d (t ++ (d ∷ r)) ≡ r
unfolding behind has
behind-append d [] r h = ground arith
behind-append d (c ∷ t) r h = ground (arith, behind-append d t r)

before_all : (d : ℕ) (t : Bytes) → has d t ≡ false → before d t ≡ t
unfolding before has
before_all d [] h = refl
before_all d (c ∷ t) h = ground (arith, before_all d t)

behind_all : (d : ℕ) (t : Bytes) → has d t ≡ false → behind d t ≡ []
unfolding behind has
behind_all d [] h = refl
behind_all d (c ∷ t) h = ground (arith, behind_all d t)

token_at-cons : (d : ℕ) (s : Bytes) → s ≢ [] → token_at d s ≡ some (before d s, behind d s)
unfolding token_at
token_at-cons d [] h = absurd (h refl)
token_at-cons d (c ∷ s) h = refl

pub append-ne : (t r : Bytes) → t ≢ [] → (t ++ r) ≢ []
append-ne [] r h e = h refl
append-ne (c ∷ t) r h e = ground arith

-- A token with the delimiter behind it.
pub strtok-append : (d : ℕ) (t r : Bytes) → IsToken d t → strtok d (t ++ (d ∷ r)) ≡ some (t, r)
unfolding strtok
strtok-append d t r h = rw (
  skip-IsToken d t (d ∷ r) h,
  token_at-cons d _ (append-ne t (d ∷ r) h.0),
  before-append d t r h.1,
  behind-append d t r h.1,
)

pub skip_token : (d : ℕ) (t : Bytes) → IsToken d t → skip d t ≡ t
unfolding skip has
skip_token d [] h = absurd (h.0 refl)
skip_token d (c ∷ t) h = ground arith

-- A token at the end of the text.
pub strtok_last : (d : ℕ) (t : Bytes) → IsToken d t → strtok d t ≡ some (t, [])
unfolding strtok
strtok_last d t h =
    rw (skip_token d t h, token_at-cons d t h.0, before_all d t h.1, behind_all d t h.1)

-- `strtok` sees what is left when the delimiters at the front are skipped.
pub strtok-skip : (d : ℕ) (s t : Bytes) → skip d s ≡ skip d t → strtok d s ≡ strtok d t
unfolding strtok
strtok-skip d s t e = ap (token_at d) e

pub strtok_empty : (d : ℕ) → strtok d [] ≡ none
unfolding strtok skip token_at
strtok_empty d = refl

method_of-method_string : (m : Method) → method_of (method_string m) ≡ some m
unfolding method_of method_string equal
method_of-method_string get = refl
method_of-method_string head = refl
method_of-method_string post = refl
method_of-method_string put = refl
method_of-method_string delete = refl
method_of-method_string connect = refl
method_of-method_string options = refl
method_of-method_string trace = refl
method_of-method_string patch = refl

method_of_sound : (s : Bytes) (m : Method) → method_of s ≡ some m → s ≡ method_string m
unfolding method_of method_string
method_of_sound s m e = ground (
  arith,
  equal_iff s (codes "GET"),
  equal_iff s (codes "HEAD"),
  equal_iff s (codes "POST"),
  equal_iff s (codes "PUT"),
  equal_iff s (codes "DELETE"),
  equal_iff s (codes "CONNECT"),
  equal_iff s (codes "OPTIONS"),
  equal_iff s (codes "TRACE"),
  equal_iff s (codes "PATCH"),
)

-- A text is read as a method exactly if it is what `methodString` prints for it.
pub method_of_iff : (s : Bytes) (m : Method) → (method_of s ≡ some m) ↔ (s ≡ method_string m)
method_of_iff s m = (method_of_sound s m, λ e. rw e (method_of-method_string m))

protocol_of-protocol_string : (p : Protocol) → protocol_of (protocol_string p) ≡ some p
unfolding protocol_of protocol_string equal
protocol_of-protocol_string http10 = refl
protocol_of-protocol_string http11 = refl

protocol_of_sound : (s : Bytes) (p : Protocol) → protocol_of s ≡ some p → s ≡ protocol_string p
unfolding protocol_of protocol_string
protocol_of_sound s p e =
    ground (arith, equal_iff s (codes "HTTP/1.0"), equal_iff s (codes "HTTP/1.1"))

-- The same for `protocolString`.
pub protocol_of_iff :
    (s : Bytes) (p : Protocol) → (protocol_of s ≡ some p) ↔ (s ≡ protocol_string p)
protocol_of_iff s p = (protocol_of_sound s p, λ e. rw e (protocol_of-protocol_string p))

pub method_string-IsToken :
    (m : Method) → IsToken b' ' (method_string m) × (has 0 (method_string m) ≡ false)
unfolding method_string has
method_string-IsToken get = ((λ e. cc, refl), refl)
method_string-IsToken head = ((λ e. cc, refl), refl)
method_string-IsToken _ = ((λ e. cc, refl), refl)

pub protocol_string-IsToken :
    (p : Protocol) → IsToken b' ' (protocol_string p) × (has 0 (protocol_string p) ≡ false)
unfolding protocol_string has
protocol_string-IsToken http10 = ((λ e. cc, refl), refl)
protocol_string-IsToken http11 = ((λ e. cc, refl), refl)
