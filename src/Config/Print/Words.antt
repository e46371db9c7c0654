-- ===== src/Config/Print/Words.antt =====
-- src/config.c, the loop of `config_parse` on words with a space behind each.
use cfloor.Base.{
  ℕ, ◌+◌, ◌<◌, ◌-◌, ◌≡◌, ◌≢◌, refl, ap, ◌∙◌, append-nil, append_assoc, Bool, true, false, not, ◌&&◌,
  All, List, [], ◌∷◌, ◌++◌, Bytes, has, c_string-has, length, length-append, leb, Alloc, Result, ok,
  err, return, Memory, resume, arith,
}
use cfloor.Config.{Config, State, ConfigError, Surroundings, Machine}
use cfloor.Config.Switch.{switch}
use cfloor.Config.Reader.{max_token_length, Reader, is_blank, end_token, read_byte, read_bytes}
use cfloor.Config.Print.{text}
use cfloor.Config.Print.Run.{run}

unfoldable pub no_blank : Bytes → Bool
no_blank [] = true
no_blank (c ∷ cs) = not (is_blank c) && no_blank cs

-- A token that fits the buffer.
pub record IsWord (t : Bytes) : Type 0 where
  pub some_byte : t ≢ []
  pub no_blanks : no_blank t ≡ true
  pub no_nul : has 0 t ≡ false
  pub short : length t < max_token_length

abbrev pub reader : Machine → Bytes → ℕ → Reader
reader m token n = record { machine = m; token = token; line = n }

module _ (w : Surroundings) (n : ℕ) where
  abbrev then_read : Bytes → Result ConfigError Reader × Memory → Result ConfigError Reader × Memory
  then_read rest r = resume r λ r'. read_bytes w r' rest

  one_byte :
      (m : Machine) (token : Bytes) (c : ℕ) (h : Memory)
      → is_blank c ≡ false
      → length token + 1 < max_token_length
      → read_byte w (reader m token n) c h ≡ (ok (reader m (token ++ (c ∷ [])) n), h)
  unfolding read_byte
  one_byte m token c h e l =
      let room : leb (max_token_length - 1) (length token) ≡ false = ground arith in
      rw (e, room) refl

  read-word :
      (m : Machine) (token t rest : Bytes) (h : Memory)
      → no_blank t ≡ true
      → length token + length t < max_token_length
      → read_bytes w (reader m token n) (t ++ (b' ' ∷ rest)) h
        ≡ then_read rest (end_token w (reader m (token ++ t) n) (token ++ t) n h)
  unfolding read_bytes no_blank read_byte
  read-word m token [] rest h p l = rw (append-nil token) refl
  read-word m token (c ∷ t) rest h p l =
      ap (λ r. resume r λ r'. read_bytes w r' (t ++ (b' ' ∷ rest)))
        (one_byte m token c h (ground arith) (omega arith))
      ∙ read-word m (token ++ (c ∷ [])) t rest h (ground arith)
          (omega (arith, length-append token (c ∷ [])))
      ∙ ap (λ l. then_read rest (end_token w (reader m l n) l n h)) (append_assoc token (c ∷ []) t)

  -- Two steps in a row, the second of which begins with an empty buffer.
  after_switch :
      (r : Result ConfigError Machine × Memory) (f : Machine → Alloc ConfigError Machine)
      (g : Reader → Alloc ConfigError Reader)
      → ((m : Machine) (h : Memory)
          → g (reader m [] n) h ≡ resume (f m h) (λ m'. return (reader m' [] n)))
      → resume {B = Reader} (resume {B = Reader} r λ m. return (reader m [] n)) g
        ≡ resume {B = Reader} (resume {B = Machine} r f) λ m'. return (reader m' [] n)
  after_switch (ok m, h) f g e = e m h
  after_switch (err x, h) f g e = refl

  pub read-words :
      (c : Config) (s : State) (ts : List Bytes) (h : Memory)
      → All IsWord ts
      → read_bytes w (reader (record { config = c; state = s }) [] n) (text ts) h
        ≡ resume {B = Reader} (run w n c s ts h) λ m. return (reader m [] n)
  unfolding read_bytes run end_token
  read-words c s [] h p = refl
  read-words c s ([] ∷ ts) h p = absurd (p.0.some_byte refl)
  read-words c s ((x ∷ t) ∷ ts) h p =
      read-word (record { config = c; state = s }) [] (x ∷ t) (text ts) h p.0.no_blanks
        (omega (arith, p.0.short))
      ∙ rw (c_string-has (x ∷ t) p.0.no_nul) (
          after_switch (switch w s c (x ∷ t) n h) (λ m. run w n m.config m.state ts)
            (λ r. read_bytes w r (text ts)) λ m h'. read-words m.config m.state ts h' p.1)
