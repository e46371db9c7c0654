-- ===== src/Network/Bounds.antt =====
-- The buffer of `dataHandler` of src/networking.c and the length that it keeps of a line.
use cfloor.Base.{
  ℕ, suc, ◌≤◌, ◌≡◌, refl, ap, Bool, ◌&&◌, Option, none, some, List, [], ◌∷◌, Bytes, length,
  length-append, take, leb, ◌==◌, Alloc, ◌>>=◌, return, Ensures, Ensures-always, Ensures-return,
  Ensures-if, Ensures-allocate, Ensures-bind, Bool-cases, inl, inr, arith,
}
use cfloor.Network.{
  Connection, Exit, buffer_length, text_of, forget_line, dump_onto, dump_header_buffer, chop_at,
  read_line, Loop, line_end, put_byte, flush_full, read_byte, read_bytes,
}

-- The line's length is that of its text.
abbrev pub IsMeasured : Connection → Type 0
IsMeasured c = c.current_header_length ≡ length (text_of c.current_header)

pub record IsBounded (l : Loop) : Type 0 where
  pub room : length l.buffer ≤ 64
  pub measured : IsMeasured l.connection

take_length : {A : Type 0} (xs : List A) → length (take (length xs) xs) ≡ length xs
take_length [] = refl
take_length (x ∷ xs) = ap suc (take_length xs)

dump_onto-IsMeasured :
    (c : Connection) (o : Option Bytes) (bytes : Bytes)
    → c.current_header_length ≡ length (text_of o)
    → Ensures IsMeasured (dump_onto c o bytes)
dump_onto-IsMeasured c none bytes e =
    Ensures-allocate IsMeasured _ _ (Ensures-return Exit IsMeasured _ refl)
dump_onto-IsMeasured c (some line) bytes e = Ensures-allocate IsMeasured _ _ (
    Ensures-return Exit IsMeasured _
      (rw e (ground (arith, length-append (take (length line) line) bytes, take_length line))))

dump_header_buffer-IsMeasured :
    (c : Connection) (bytes : Bytes)
    → IsMeasured c
    → Ensures IsMeasured (dump_header_buffer c bytes)
unfolding dump_header_buffer
dump_header_buffer-IsMeasured c bytes e = dump_onto-IsMeasured c c.current_header bytes e

abbrev ended_at : ℕ → Connection → Loop
ended_at last c = record { connection = forget_line c; buffer = []; last = last }

ended_at-IsBounded : (last : ℕ) (c : Connection) → IsBounded (ended_at last c)
ended_at-IsBounded last c = record { room = omega arith; measured = refl }

abbrev IsEmptied : Loop → Type 0
IsEmptied l = (length l.buffer ≡ 0) × IsMeasured l.connection

abbrev Anything : Connection → Type 0
Anything c = Unit {0}

module _ (spawns : Bool) (l : Loop) where
  line_end-IsBounded : Ensures IsBounded (line_end spawns l)
  unfolding line_end
  line_end-IsBounded =
      let any = λ (m : Alloc Exit Connection). Ensures-always Anything m (λ c. tt) in
      let finish = λ (c : Connection). return {E = Exit} (ended_at l.last c) in
      let line = λ (c : Connection). read_line spawns c.meta_data c (text_of c.current_header) in
      let chop = λ (c : Connection). chop_at c c.current_header c.current_header_length in
      Ensures-bind Anything IsBounded (λ c. chop c >>= λ c'. line c' >>= finish) _ (any _)
        λ c u.
          Ensures-bind Anything IsBounded (λ c'. line c' >>= finish) (chop c) (any _)
            λ c' u'.
              Ensures-bind Anything IsBounded finish (line c') (any _)
                λ c'' u''. Ensures-return Exit IsBounded _ (ended_at-IsBounded l.last c'')

  flush_full-IsEmptied : IsMeasured l.connection → Ensures IsEmptied (flush_full l)
  unfolding flush_full
  flush_full-IsEmptied e =
      Ensures-bind IsMeasured IsEmptied (λ c. return (record l { connection = c; buffer = [] }))
        (dump_header_buffer l.connection l.buffer)
        (dump_header_buffer-IsMeasured l.connection l.buffer e)
        λ c m. Ensures-return Exit IsEmptied _ (refl, m)

put_byte-IsBounded :
    (l : Loop) (b : ℕ)
    → suc (length l.buffer) ≤ 64
    → IsMeasured l.connection
    → Ensures {E = Exit} IsBounded (return (put_byte l b))
put_byte-IsBounded l b r m =
    Ensures-return Exit IsBounded (put_byte l b)
      (record { room = omega (arith, length-append l.buffer (b ∷ [])); measured = m })

read_byte-IsBounded :
    (spawns : Bool) (l : Loop) (b : ℕ) → IsBounded l → Ensures IsBounded (read_byte spawns l b)
unfolding read_byte
read_byte-IsBounded spawns l b i =
    Ensures-if IsBounded (l.last == b'\r' && b == b'\n') _ _ (line_end-IsBounded spawns l)
      (elim (Bool-cases (leb buffer_length (length l.buffer))) [
        | inl full ↦ rw full (
            Ensures-bind IsEmptied IsBounded (λ l'. return (put_byte l' b)) (flush_full l)
              (flush_full-IsEmptied spawns l i.measured)
              λ l' e. put_byte-IsBounded l' b (omega (arith, e.0)) e.1)
        | inr room ↦ rw room (put_byte-IsBounded l b (ground arith) i.measured)
      ])

-- Whatever bytes come, and whatever the memory: while the handler reads on, at most 64 bytes are in
-- the buffer, and the length that it keeps of a line is the length of the line's text.
pub read_bytes-IsBounded :
    (spawns : Bool) (l : Loop) (input : Bytes)
    → IsBounded l
    → Ensures IsBounded (read_bytes spawns l input)
unfolding read_bytes
read_bytes-IsBounded spawns l [] i = Ensures-return Exit IsBounded l i
read_bytes-IsBounded spawns l (b ∷ input) i =
    Ensures-bind IsBounded IsBounded _ (read_byte spawns l b) (read_byte-IsBounded spawns l b i)
      λ l' i'. read_bytes-IsBounded spawns l' input i'
