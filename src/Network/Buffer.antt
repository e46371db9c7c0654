-- ===== src/Network/Buffer.antt =====
-- `dataHandler` of src/networking.c collects bytes in a buffer: what it does is compared with the
-- reader of Network/Lines, which has none.
use cfloor.Base.{
  ℕ, suc, ◌+◌, ◌≡◌, inl, inr, refl, sym, ap, ◌∙◌, Bool, true, false, ◌&&◌, some, List, [], ◌∷◌,
  ◌++◌, append-nil, append_assoc, Bytes, length, length-append, take, leb, ◌==◌, Memory, Result, ok,
  err, ◌>>=◌, return, resume, Bool-cases, arith,
}
use cfloor.Dir.{last_byte}
use cfloor.Network.{
  opened, Connection, Exit, dropped, started, undefined, buffer_length, dump_header_buffer, chop_at,
  text_of, forget_line, read_line, Loop, line_end, flush_full, read_byte, read_bytes, again,
  release, flush_rest, after_loop, end_read, begin_read, read_opened, data_handler,
}
use cfloor.Network.Ample.{read_line-ample}
use cfloor.Network.Lines.{
  with_line, Reading, next_line, text_end, text_byte, carry_on, text_bytes, settle, taken,
  reading_of,
}

-- The loop's variables for a text of which a part is in the buffer.
abbrev loop_at : Connection → Bytes → Bytes → ℕ → Loop
loop_at c h b last = record { connection = with_line c h; buffer = b; last = last }

take_all : {A : Type 0} (xs : List A) → take (length xs) xs ≡ xs
take_all [] = refl
take_all (x ∷ xs) = ap (◌∷◌ x) (take_all xs)

dump_onto-line :
    (c : Connection) (h : Bytes) (b : ℕ) (bs : Bytes)
    → dump_header_buffer (with_line c h) (b ∷ bs) [] ≡ (ok (with_line c (h ++ (b ∷ bs))), [])
unfolding dump_header_buffer
dump_onto-line c [] b bs = refl
dump_onto-line c (x ∷ h) b bs = ground (arith, take_all h, length-append h (b ∷ bs))

-- The line's end, wherever its text stands.
abbrev shown : Result Exit Reading → Result Exit Loop × Memory
shown (ok r) = (ok (loop_at r.connection [] [] r.last), [])
shown (err e) = (err e, [])

shown-next :
    (last : ℕ) (r : Result Exit Connection × Memory)
    → r.1 ≡ []
    → resume r (λ c. return (record { connection = forget_line c; buffer = []; last = last }))
      ≡ shown (next_line last r.0)
shown-next last (ok c, h) e = rw e
shown-next last (err x, h) e = rw e

module _ (spawns : Bool) (c : Connection) (last : ℕ) where
  -- Once the text is in the connection's line.
  chop-shown :
      (x : ℕ) (t : Bytes)
      → (chop_at (with_line c (x ∷ t)) (some (x ∷ t)) (suc (length t)) >>= λ c'.
            read_line spawns c'.meta_data c' (text_of c'.current_header) >>= λ c''.
            return (record { connection = forget_line c''; buffer = []; last = last }))
          []
        ≡ shown (text_end spawns c (x ∷ t) last)
  unfolding text_end
  chop-shown x t = shown-next last _ (read_line-ample spawns c.meta_data _ _)

  line_end-shown :
      (h b : Bytes)
      → line_end spawns (loop_at c h b last) [] ≡ shown (text_end spawns c (h ++ b) last)
  unfolding line_end dump_header_buffer text_end
  line_end-shown [] [] = refl
  line_end-shown [] (x ∷ b) = chop-shown x b
  line_end-shown (x ∷ h) b =
      let same : take (length h) h ++ b ≡ h ++ b = ap (λ t. t ++ b) (take_all h) in
      let longer : suc (length h) + length b ≡ suc (length (h ++ b)) =
        omega (arith, length-append h b) in
      rw (same, longer) (chop-shown x (h ++ b))

module _ (spawns : Bool) (c : Connection) (last x : ℕ) where
  module _ (e : (last == b'\r' && x == b'\n') ≡ false) where
    read_byte-full :
        (h b : Bytes)
        → leb buffer_length (length b) ≡ true
        → read_byte spawns (loop_at c h b last) x [] ≡ (ok (loop_at c (h ++ b) (x ∷ []) x), [])
    unfolding read_byte flush_full
    read_byte-full h [] full = absurd (cc)
    read_byte-full h (y ∷ b) full = rw (e, full, dump_onto-line c h y b)

    -- A byte that ends no line stays, in the buffer or in the connection's line.
    read_byte-put :
        (h b : Bytes)
        → (h' : Bytes) × (b' : Bytes) × (h' ++ b' ≡ (h ++ b) ++ (x ∷ []))
          × (read_byte spawns (loop_at c h b last) x [] ≡ (ok (loop_at c h' b' x), []))
    unfolding read_byte
    read_byte-put h b = elim (Bool-cases (leb buffer_length (length b))) [
      | inl full ↦ (h ++ b, x ∷ [], refl, read_byte-full h b full)
      | inr room ↦ (h, b ++ (x ∷ []), sym (append_assoc h b (x ∷ [])), rw (e, room))
    ]

  read_byte-end :
      (h b : Bytes)
      → (last == b'\r' && x == b'\n') ≡ true
      → read_byte spawns (loop_at c h b last) x [] ≡ shown (text_end spawns c (h ++ b) last)
  unfolding read_byte
  read_byte-end h b e = rw e (line_end-shown spawns c last h b)

flush_rest-line :
    (c : Connection) (h b : Bytes) (last : ℕ)
    → after_loop (loop_at c h b last) again [] ≡ (ok (release (with_line c (h ++ b))), [])
unfolding after_loop flush_rest
flush_rest-line c h [] last = rw (append-nil h)
flush_rest-line c h (x ∷ b) last = rw (dump_onto-line c h x b)

-- An exit leaves the handler at once.
end_read-exit : (x : Exit) → end_read again (err x, []) ≡ (settle (err x), [])
end_read-exit (dropped c) = refl
end_read-exit (started c) = refl
end_read-exit (undefined f) = refl

-- The reader with its buffer does what the reader of texts does.
Reads : Bool → Connection → Bytes → Bytes → ℕ → Bytes → Type 0
Reads spawns c h b last input =
    end_read again (read_bytes spawns (loop_at c h b last) input [])
    ≡ (settle (text_bytes spawns (record { connection = c; text = h ++ b; last = last }) input), [])

module _ (spawns : Bool) (input : Bytes) (last : ℕ) where
  next_line-Reads :
      (q : Result Exit Connection)
      → ((c : Connection) → Reads spawns c [] [] last input)
      → end_read again (resume (shown (next_line last q)) (λ l. read_bytes spawns l input))
        ≡ (settle (carry_on (next_line last q) (λ r. text_bytes spawns r input)), [])
  unfolding Reads
  next_line-Reads (ok c) ih = ih (forget_line c)
  next_line-Reads (err x) ih = end_read-exit x

  text_end-Reads :
      (c : Connection) (text : Bytes)
      → ((c' : Connection) → Reads spawns c' [] [] last input)
      → end_read again
          (resume (shown (text_end spawns c text last)) (λ l. read_bytes spawns l input))
        ≡ (settle (carry_on (text_end spawns c text last) (λ r. text_bytes spawns r input)), [])
  unfolding text_end
  text_end-Reads c [] ih = refl
  text_end-Reads c (x ∷ t) ih = next_line-Reads _ ih

read_bytes-Reads :
    (spawns : Bool) (c : Connection) (h b : Bytes) (last : ℕ) (input : Bytes)
    → Reads spawns c h b last input
unfolding Reads read_bytes text_bytes text_byte
read_bytes-Reads spawns c h b last [] = flush_rest-line c h b last
read_bytes-Reads spawns c h b last (x ∷ input) = elim (Bool-cases (last == b'\r' && x == b'\n')) [
  | inl ends ↦
      rw (read_byte-end spawns c last x h b ends, ends)
        (text_end-Reads spawns input last c (h ++ b)
          (λ c'. read_bytes-Reads spawns c' [] [] last input))
  | inr puts ↦
      let (h', b', same, step) = read_byte-put spawns c last x puts h b in
      rw (step, puts, ← same) (read_bytes-Reads spawns c h' b' x input)
]

-- The byte before is the last one of the line.
begun :
    (spawns : Bool) (c : Connection) (x : ℕ) (t input : Bytes)
    → end_read again (read_bytes spawns (begin_read (with_line c (x ∷ t))) input [])
      ≡ end_read again (read_bytes spawns (loop_at (taken c) (x ∷ t) [] (last_byte x t)) input [])
begun spawns c x t input = let longer : (suc (length t) == 0) ≡ false = ground arith in rw longer

-- On a connection that waits for a request, with a line begun that holds `text`: the handler, which
-- collects the bytes in a buffer of 64, leaves the connection that a reader without a buffer leaves,
-- for every input that has not ended and given memory.
pub data_handler-text_bytes :
    (spawns : Bool) (c : Connection) (text input : Bytes)
    → c.state ≡ opened
    → data_handler spawns (with_line c text) input again []
      ≡ (settle (text_bytes spawns (reading_of c text) input), [])
unfolding data_handler Reads
data_handler-text_bytes spawns c [] input o =
    ap (λ s. read_opened spawns s (with_line c []) input again []) o
    ∙ read_bytes-Reads spawns (taken c) [] [] 0 input
data_handler-text_bytes spawns c (x ∷ t) input o =
    ap (λ s. read_opened spawns s (with_line c (x ∷ t)) input again []) o
    ∙ begun spawns c x t input
    ∙ rw (append-nil t) at
        (read_bytes-Reads spawns (taken c) (x ∷ t) [] (last_byte 0 (x ∷ t)) input)
