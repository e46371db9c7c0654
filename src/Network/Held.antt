-- ===== src/Network/Held.antt =====
-- What a connection is between two bytes of a request, by `dataHandler` of src/networking.c: held by
-- the reader, and no longer opened once its request has started.
use cfloor.Base.{
  ℕ, ◌<◌, ◌≡◌, ◌≢◌, ◌⊎◌, inl, inr, refl, sym, Bool, true, false, ◌&&◌, Option, none, some, [], ◌∷◌,
  ◌++◌, Bytes, ◌==◌, if◌then◌else◌, Memory, Result, ok, err, Bool-cases, arith,
}
use cfloor.Dir.{last_byte}
use cfloor.Headers.{HeadersError, end, parse_error, alloc_error, Headers}
use cfloor.Headers.Field.{parse}
use cfloor.Request.{MetaData, MetaError, null_string, headers_metadata}
use cfloor.Network.{
  opened, processing, keep_alive, Connection, Exit, dropped, started, undefined, forget_line,
  after_metadata, after_parse, persists, start_request_handler, headers_complete, read_line,
  release,
}
use cfloor.Network.Lines.{Reading, next_line, text_end, text_byte, carry_on, text_bytes, taken}

-- A connection in the hands of the reader.
pub record IsHeld (c : Connection) : Type 0 where
  pub waits : c.state ≡ opened
  pub in_use : 0 < c.in_use
  pub response : c.response_thread ≡ false
  pub encoder : c.encoder_thread ≡ false

pub taken-release : (c : Connection) → IsHeld c → taken (release c) ≡ c
taken-release c h = ground arith

-- What a line leaves: a connection that is read on, or one that is not.
abbrev LineLeft : Result Exit Connection → Type 0
LineLeft (ok c) = IsHeld c
LineLeft (err (started c)) = c.state ≢ opened
LineLeft (err _) = Unit {0}

start-LineLeft :
    (spawns persistent : Bool) (c : Connection)
    → LineLeft (
        err (
          started (
            start_request_handler spawns
              (record c { state = if persistent then keep_alive else processing }))))
unfolding start_request_handler
start-LineLeft true true c e = cc
start-LineLeft true false c e = cc
start-LineLeft false persistent c e = cc

after_metadata-LineLeft :
    (c : Connection) (r : Result MetaError MetaData × Memory)
    → IsHeld c
    → LineLeft (after_metadata c r).0
after_metadata-LineLeft c (ok m, h) i = ground arith
after_metadata-LineLeft c (err null_string, h) i = tt
after_metadata-LineLeft c (err MetaError.parse_error, h) i = tt
after_metadata-LineLeft c (err MetaError.alloc_error, h) i = tt

after_parse-LineLeft :
    (spawns : Bool) (m : MetaData) (c : Connection) (r : Result HeadersError (ℕ × Headers) × Memory)
    → IsHeld c
    → LineLeft (after_parse spawns m c r).0
unfolding headers_complete
after_parse-LineLeft spawns m c (ok (i, hs), h) k = ground arith
after_parse-LineLeft spawns m c (err end, h) k =
    let persistent = persists c.headers m.protocol in
    start-LineLeft spawns persistent (record (forget_line c) { is_persistent = persistent })
after_parse-LineLeft spawns m c (err parse_error, h) k = tt
after_parse-LineLeft spawns m c (err alloc_error, h) k = tt

read_line-LineLeft :
    (spawns : Bool) (m : Option MetaData) (c : Connection) (line : Bytes) (h : Memory)
    → IsHeld c
    → LineLeft (read_line spawns m c line h).0
unfolding read_line
read_line-LineLeft spawns none c line h i = after_metadata-LineLeft c (headers_metadata line h) i
read_line-LineLeft spawns (some m) c line h i =
    after_parse-LineLeft spawns m c (parse c.headers line h) i

-- The byte before is the last of the line, unless a line has just ended.
pub record IsReading (r : Reading) : Type 0 where
  pub held : IsHeld r.connection
  pub last : (r.text ≡ []) ⊎ (r.last ≡ last_byte 0 r.text)

abbrev pub Left : Result Exit Reading → Type 0
Left (ok r) = IsReading r
Left (err (started c)) = c.state ≢ opened
Left (err _) = Unit {0}

next_line-Left : (last : ℕ) (q : Result Exit Connection) → LineLeft q → Left (next_line last q)
next_line-Left last (ok c) h = ground arith
next_line-Left last (err (dropped c)) h = tt
next_line-Left last (err (started c)) h = h
next_line-Left last (err (undefined f)) h = tt

last_byte-append : (d : ℕ) (t : Bytes) (b : ℕ) → last_byte d (t ++ (b ∷ [])) ≡ b
last_byte-append d [] b = refl
last_byte-append d (x ∷ t) b = last_byte-append x t b

text_end-Left :
    (spawns : Bool) (c : Connection) (text : Bytes) (last : ℕ)
    → IsHeld c
    → Left (text_end spawns c text last)
unfolding text_end
text_end-Left spawns c [] last h = tt
text_end-Left spawns c (b ∷ bs) last h =
    next_line-Left last _ (read_line-LineLeft spawns c.meta_data _ _ [] (ground arith))

text_byte-Left : (spawns : Bool) (r : Reading) (b : ℕ) → IsReading r → Left (text_byte spawns r b)
unfolding text_byte
text_byte-Left spawns r b i = elim (Bool-cases (r.last == b'\r' && b == b'\n')) [
  | inl ends ↦ rw ends (text_end-Left spawns r.connection r.text r.last i.held)
  | inr puts ↦ rw puts (record { held = i.held; last = inr (sym (last_byte-append 0 r.text b)) })
]

carry_on-Left :
    (spawns : Bool) (q : Result Exit Reading) (input : Bytes)
    → Left q
    → ((r : Reading) → IsReading r → Left (text_bytes spawns r input))
    → Left (carry_on q (λ r. text_bytes spawns r input))
carry_on-Left spawns (ok r) input h f = f r h
carry_on-Left spawns (err (dropped c)) input h f = tt
carry_on-Left spawns (err (started c)) input h f = h
carry_on-Left spawns (err (undefined f)) input h k = tt

pub text_bytes-Left :
    (spawns : Bool) (r : Reading) (input : Bytes) → IsReading r → Left (text_bytes spawns r input)
unfolding text_bytes
text_bytes-Left spawns r [] i = i
text_bytes-Left spawns r (b ∷ input) i =
    carry_on-Left spawns (text_byte spawns r b) input (text_byte-Left spawns r b i)
      (λ r' i'. text_bytes-Left spawns r' input i')
