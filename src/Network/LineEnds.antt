-- ===== src/Network/LineEnds.antt =====
-- `dataHandler` of src/networking.c on a line that ends with "\r\n".
use cfloor.Base.{
  ℕ, suc, ◌≡◌, refl, Bool, false, some, [], ◌∷◌, ◌++◌, append-nil, append_assoc, Bytes, codes, has,
  length, length-append, take, take-append, ◌==◌, ok, arith,
}
use cfloor.Dir.{last_byte}
use cfloor.Network.{Connection, read_line}
use cfloor.Network.Lines.{Reading, next_line, text_end, text_byte, carry_on, text_bytes}

abbrev pub ended_line : Bytes → Bytes
ended_line line = line ++ codes "\r\n"

-- The loop's variables, as they are written down here.
abbrev pub reading : Connection → Bytes → ℕ → Reading
reading c text last = record { connection = c; text = text; last = last }

module _ (spawns : Bool) (c : Connection) where
  text_byte-other :
      (text : Bytes) (last b : ℕ)
      → (b == b'\n') ≡ false
      → text_byte spawns (reading c text last) b ≡ ok (reading c (text ++ (b ∷ [])) b)
  unfolding text_byte
  text_byte-other text last b h = ground arith

  -- Bytes without '\n' only prolong the text.
  pub text_bytes-plain :
      (text line input : Bytes) (last : ℕ)
      → has b'\n' line ≡ false
      → text_bytes spawns (reading c text last) (line ++ input)
        ≡ text_bytes spawns (reading c (text ++ line) (last_byte last line)) input
  unfolding text_bytes has
  text_bytes-plain text [] input last h = rw (append-nil text)
  text_bytes-plain text (b ∷ line) input last h =
      let other : (b == b'\n') ≡ false = ground arith in
      let rest : has b'\n' line ≡ false = ground arith in
      rw (text_byte-other text last b other) (
        rw (append_assoc text (b ∷ []) line) at
          (text_bytes-plain (text ++ (b ∷ [])) line input b rest))

  pub text_end-line :
      (line : Bytes)
      → text_end spawns c (line ++ (b'\r' ∷ [])) b'\r'
        ≡ next_line b'\r'
            (read_line spawns c.meta_data
              (record c { current_header = some line; current_header_length = length line })
              line
              []).0
  unfolding text_end
  text_end-line [] = refl
  text_end-line (x ∷ line) =
      let whole : take (length (line ++ (b'\r' ∷ []))) (x ∷ (line ++ (b'\r' ∷ []))) ≡ x ∷ line =
        take-append (x ∷ line) (b'\r' ∷ []) _ (omega (arith, length-append line (b'\r' ∷ []))) in
      let shorter : length (line ++ (b'\r' ∷ [])) ≡ suc (length line) =
        omega (arith, length-append line (b'\r' ∷ [])) in
      rw (whole, shorter)

  text_byte-end :
      (text : Bytes) → text_byte spawns (reading c text b'\r') b'\n' ≡ text_end spawns c text b'\r'
  unfolding text_byte
  text_byte-end text = refl

  -- A whole line.
  pub text_bytes-line :
      (line input : Bytes) (last : ℕ)
      → has b'\n' line ≡ false
      → text_bytes spawns (reading c [] last) (ended_line line ++ input)
        ≡ carry_on
            (next_line b'\r'
              (read_line spawns c.meta_data
                (record c { current_header = some line; current_header_length = length line })
                line
                []).0)
            (λ r. text_bytes spawns r input)
  unfolding text_bytes
  text_bytes-line line input last h =
      rw
        (
          append_assoc line (codes "\r\n") input,
          text_bytes-plain [] line (b'\r' ∷ (b'\n' ∷ input)) last h,
          text_byte-other line (last_byte last line) b'\r' refl,
        )
        (rw (text_byte-end (line ++ (b'\r' ∷ [])), text_end-line line))
