-- ===== src/Network/Encoding/Decoder.antt =====
-- A reader of the chunked coding, written from RFC 9112, beside the writer of src/networking.c.
use cfloor.Base.{
  Bool-cases, inl, inr, ℕ, zero, suc, ◌+◌, ◌-◌, ◌*◌, ◌≤◌, ◌<◌, ◌≡◌, refl, ◌∙◌, Bool, true, false,
  ◌&&◌, Option, none, some, List, [], ◌∷◌, ◌++◌, append_assoc, Bytes, codes, length, length-append,
  take, drop, take-append, drop-append, strip_prefix, strip_prefix-append, All, leb, ◌==◌, ==_iff,
  if◌then◌else◌, arith,
}
use cfloor.Network.Encoding.{max_chunk_size, hex_digits, hex, closed, failed, chunk, encode}

-- The value of a hexadecimal digit.
abbrev digit_value : ℕ → Option ℕ
digit_value c =
    if leb b'0' c && leb c b'9'
    then some (c - b'0')
    else if leb b'a' c && leb c b'f'
    then some (c - 87)
    else none

-- The number at the front of a text, and what follows its digits.
abbrev read_on : Option ℕ → ℕ → Bytes → ℕ × Bytes → ℕ × Bytes
read_on none acc text rest = (acc, text)
read_on (some d) acc text rest = rest

abbrev shifted : ℕ → Option ℕ → ℕ
shifted acc none = acc
shifted acc (some d) = acc * 16 + d

unfoldable pub read_hex : ℕ → Bytes → ℕ × Bytes
read_hex acc [] = (acc, [])
read_hex acc (c ∷ cs) =
    read_on (digit_value c) acc (c ∷ cs) (read_hex (shifted acc (digit_value c)) cs)

-- A decoded body and the bytes behind it.
abbrev prefixed : Bytes → Option (Bytes × Bytes) → Option (Bytes × Bytes)
prefixed bytes none = none
prefixed bytes (some (body, rest)) = some (bytes ++ body, rest)

abbrev and_then : Option Bytes → (Bytes → Option (Bytes × Bytes)) → Option (Bytes × Bytes)
and_then none f = none
and_then (some s) f = f s

-- The body behind a size: a chunk and the rest, or the empty line at the end.
abbrev pub decode_chunk : (Bytes → Option (Bytes × Bytes)) → ℕ → Bytes → Option (Bytes × Bytes)
decode_chunk next zero s = and_then (strip_prefix (codes "\r\n") s) (λ rest. some ([], rest))
decode_chunk next (suc n) s =
    if leb (suc n) (length s)
    then and_then (strip_prefix (codes "\r\n") (drop (suc n) s))
        (λ rest. prefixed (take (suc n) s) (next rest))
    else none

unfoldable pub decode : ℕ → Bytes → Option (Bytes × Bytes)
decode zero s = none
decode (suc fuel) s =
    let size = read_hex 0 s in
    and_then (strip_prefix (codes "\r\n") size.1) (λ rest. decode_chunk (decode fuel) size.0 rest)

-- What a read from the pipe returns.
abbrev pub IsRead : Bytes → Type 0
IsRead bytes = (0 < length bytes) × (length bytes ≤ max_chunk_size)

abbrev pub concat : List Bytes → Bytes
concat [] = []
concat (bytes ∷ reads) = bytes ++ concat reads

-- Every size that a chunk can have, written and read.
is_hex : ℕ → Bool
is_hex c = elim (digit_value c) [ none ↦ false | some d ↦ true ]

all_hex : Bytes → Bool
all_hex [] = true
all_hex (c ∷ cs) = is_hex c && all_hex cs

sizes_below : ℕ → Bool
sizes_below zero = true
sizes_below (suc n) = sizes_below n && (all_hex (hex n) && (read_hex 0 (hex n)).0 == n)

sizes : sizes_below 513 ≡ true
unfolding sizes_below all_hex is_hex read_hex hex hex_digits
sizes = refl

sizes_sound :
    (k n : ℕ)
    → sizes_below k ≡ true
    → n < k
    → (all_hex (hex n) ≡ true) × ((read_hex 0 (hex n)).0 ≡ n)
unfolding sizes_below
sizes_sound zero n h l = absurd (omega arith)
sizes_sound (suc k) n h l = elim (Bool-cases (n == k)) [
  | inl last ↦
      let same : n ≡ k = (==_iff n k).0 last in
      rw same (ground (arith, ==_iff (read_hex 0 (hex k)).0 k))
  | inr before ↦ sizes_sound k n (ground arith) (ground arith)
]

read_on-append :
    (o : Option ℕ) (acc c : ℕ) (digits rest : Bytes) (shorter : ℕ × Bytes) (longer : ℕ × Bytes)
    → elim o as (λ x. Bool) [ none ↦ false | some d ↦ true ] ≡ true
    → longer ≡ (shorter.0, b'\r' ∷ rest)
    → read_on o acc (c ∷ (digits ++ (b'\r' ∷ rest))) longer
      ≡ ((read_on o acc (c ∷ digits) shorter).0, b'\r' ∷ rest)
read_on-append none acc c digits rest shorter longer h e = cc
read_on-append (some d) acc c digits rest shorter longer h e = e

-- The digits end at the '\r'.
read_hex-append :
    (acc : ℕ) (digits rest : Bytes)
    → all_hex digits ≡ true
    → read_hex acc (digits ++ (b'\r' ∷ rest)) ≡ ((read_hex acc digits).0, b'\r' ∷ rest)
unfolding read_hex all_hex is_hex
read_hex-append acc [] rest h = refl
read_hex-append acc (c ∷ cs) rest h =
    read_on-append (digit_value c) acc c cs rest _ _ (ground arith)
      (read_hex-append (shifted acc (digit_value c)) cs rest (ground arith))

read_hex-hex :
    (n : ℕ) (rest : Bytes)
    → n ≤ max_chunk_size
    → read_hex 0 (hex n ++ (b'\r' ∷ rest)) ≡ (n, b'\r' ∷ rest)
read_hex-hex n rest h =
    let (digits, value) = sizes_sound 513 n sizes (omega arith) in
    read_hex-append 0 (hex n) rest digits ∙ rw value

chunk-append :
    (bytes rest : Bytes)
    → chunk bytes ++ rest
      ≡ hex (length bytes) ++ (codes "\r\n" ++ (bytes ++ (codes "\r\n" ++ rest)))
unfolding chunk
chunk-append bytes rest = simp append_assoc

-- The bytes of a chunk, once its size is known.
decode_chunk-suc :
    (next : Bytes → Option (Bytes × Bytes)) (n : ℕ) (bytes rest : Bytes)
    → suc n ≡ length bytes
    → decode_chunk next (suc n) (bytes ++ (codes "\r\n" ++ rest)) ≡ prefixed bytes (next rest)
decode_chunk-suc next n bytes rest e =
    let fits : leb (suc n) (length (bytes ++ (codes "\r\n" ++ rest))) ≡ true =
      ground (arith, length-append bytes (codes "\r\n" ++ rest)) in
    rw (
      fits,
      drop-append bytes (codes "\r\n" ++ rest) (suc n) e,
      take-append bytes (codes "\r\n" ++ rest) (suc n) e,
      strip_prefix-append (codes "\r\n") rest,
    )

decode-chunk :
    (fuel : ℕ) (bytes rest : Bytes)
    → IsRead bytes
    → decode (suc fuel) (chunk bytes ++ rest) ≡ prefixed bytes (decode fuel rest)
unfolding decode
decode-chunk fuel [] rest h = absurd (omega (arith, h.0))
decode-chunk fuel (b ∷ bytes) rest h =
    rw
      (
        chunk-append (b ∷ bytes) rest,
        read_hex-hex (length (b ∷ bytes)) (b'\n' ∷ ((b ∷ bytes) ++ (codes "\r\n" ++ rest))) h.1,
        strip_prefix-append (codes "\r\n") ((b ∷ bytes) ++ (codes "\r\n" ++ rest)),
      )
      (decode_chunk-suc (decode fuel) (length bytes) (b ∷ bytes) rest refl)

decode-last :
    (fuel : ℕ) (rest : Bytes) → decode (suc fuel) (codes "0\r\n\r\n" ++ rest) ≡ some ([], rest)
unfolding decode read_hex strip_prefix
decode-last fuel rest = refl

decode-zero : (s : Bytes) → decode zero s ≡ none
unfolding decode
decode-zero s = refl

decode_empty : (fuel : ℕ) → decode fuel [] ≡ none
unfolding decode read_hex strip_prefix
decode_empty zero = refl
decode_empty (suc fuel) = refl

-- However the handler's output is read from the pipe, in reads of 1 to 512 bytes: if the reads end as
-- the handler closes the pipe, then a reader of the chunked coding gets from what the thread writes
-- the handler's output and nothing else, and goes on behind it.
pub decode-encode :
    (reads : List Bytes) (rest : Bytes)
    → All IsRead reads
    → decode (suc (length reads)) (encode reads closed ++ rest) ≡ some (concat reads, rest)
unfolding encode
decode-encode [] rest h = decode-last 0 rest
decode-encode (bytes ∷ reads) rest h = rw (append_assoc (chunk bytes) (encode reads closed) rest) (
    decode-chunk (suc (length reads)) bytes (encode reads closed ++ rest) h.0
    ∙ rw (decode-encode reads rest h.1))

-- If the reads end with an error, the reader can tell: at the end of what the thread has written it
-- has no whole body, on whatever fuel.
pub decode-encode_failed :
    (reads : List Bytes) (fuel : ℕ) → All IsRead reads → decode fuel (encode reads failed) ≡ none
unfolding encode
decode-encode_failed [] fuel h = decode_empty fuel
decode-encode_failed (bytes ∷ reads) zero h = decode-zero (encode (bytes ∷ reads) failed)
decode-encode_failed (bytes ∷ reads) (suc fuel) h =
    decode-chunk fuel bytes (encode reads failed) h.0 ∙ rw (decode-encode_failed reads fuel h.1)
