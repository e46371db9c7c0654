-- ===== src/Config/Shape/Parse.antt =====
-- src/config.c, `config_parse` as a whole: its buffer, its pointers and its result.
use cfloor.Base.{
  ℕ, ◌+◌, ◌-◌, ◌<◌, ◌≡◌, refl, Bool, true, false, [], ◌∷◌, ◌++◌, Bytes, c_string, length,
  length-append, if◌then◌else◌, leb, ◌==◌, arith, Ensures, Ensures-return, Ensures-fail, Ensures-if,
  Ensures-allocate, Ensures-bind, return, fail,
}
use cfloor.Config.{
  Config, State, ConfigError, Surroundings, no_memory, token_too_long, unexpected_eof,
}
use cfloor.Config.Switch.{switch}
use cfloor.Config.Reader.{
  max_token_length, Reader, is_blank, end_token, read_byte, read_bytes, first_reader, at_eof,
  config_parse,
}
use cfloor.Config.Shape.{At, place_of}
use cfloor.Config.Shape.Steps.{IsShaped, Keeps}
use cfloor.Config.Shape.States.{switch-Keeps}
use cfloor.Config.Valid.{IsValid}
use cfloor.Config.Valid.Finish.{finish-IsValid}

-- The token and its terminator fit `currentToken`, and the pointers are in shape.
unfoldable pub IsReady : Reader → Type 0
IsReady r = (length r.token < max_token_length) × IsShaped r.machine

end_token-IsReady :
    (w : Surroundings) (r : Reader) (t : Bytes) (n : ℕ)
    → IsReady r
    → Ensures IsReady (end_token w r t n)
unfolding end_token IsReady IsShaped Keeps
end_token-IsReady w r [] n p = Ensures-return ConfigError IsReady _ p
end_token-IsReady w r (c ∷ cs) n p =
    Ensures-bind IsShaped IsReady _
      (switch w r.machine.state r.machine.config (c_string (c ∷ cs)) r.line)
      (switch-Keeps w r.machine.state r.machine.config (c_string (c ∷ cs)) r.line p.1)
      λ m q. Ensures-return ConfigError IsReady _ (omega arith, q)

-- One byte more, behind the test for MAX_TOKEN_LENGTH - 1.
append-IsReady :
    (b : Bool) (r : Reader) (c : ℕ)
    → leb (max_token_length - 1) (length r.token) ≡ b
    → IsReady r
    → Ensures IsReady (
        if b
        then fail (token_too_long r.line)
        else return (record r { token = r.token ++ (c ∷ []) }))
unfolding IsReady
append-IsReady true r c e p = Ensures-fail IsReady _
append-IsReady false r c e p =
    Ensures-return ConfigError IsReady _ (rw (length-append r.token (c ∷ [])) (ground arith), p.1)

pub read_byte-IsReady :
    (w : Surroundings) (r : Reader) (c : ℕ) → IsReady r → Ensures IsReady (read_byte w r c)
unfolding read_byte
read_byte-IsReady w r c p =
    Ensures-if IsReady (is_blank c) _ _
      (end_token-IsReady w r r.token (if c == b'\n' then r.line + 1 else r.line) p)
      (append-IsReady _ r c refl p)

-- However long the file is, and whatever it holds: the token with its terminator stays within the
-- buffer of MAX_TOKEN_LENGTH bytes, and the bind, site and handler that the state's code
-- dereferences exist.
pub read_bytes-IsReady :
    (w : Surroundings) (r : Reader) (file : Bytes)
    → IsReady r
    → Ensures IsReady (read_bytes w r file)
unfolding read_bytes
read_bytes-IsReady w r [] p = Ensures-return ConfigError IsReady r p
read_bytes-IsReady w r (c ∷ cs) p =
    Ensures-bind IsReady IsReady _ (read_byte w r c) (read_byte-IsReady w r c p)
      λ r' q. read_bytes-IsReady w r' cs q

pub first_reader-IsReady : IsReady first_reader
unfolding IsReady IsShaped
first_reader-IsReady = (omega arith, tt)

at_eof-IsValid :
    (w : Surroundings) (s : State) (c : Config)
    → At (place_of s) c.binds
    → Ensures (IsValid w) (at_eof w s c)
unfolding at_eof
at_eof-IsValid w State.root c p = finish-IsValid w c p
at_eof-IsValid w _ c p = Ensures-fail (IsValid w) unexpected_eof

-- A configuration that is returned can be served: every bind has an address, a port and, with
-- "ssl", a key and a certificate that OpenSSL took; every site has a document root; every handler
-- has its directory, a type, the function of that type and the document root of its own site.
pub config_parse-IsValid :
    (w : Surroundings) (file : Bytes) → Ensures (IsValid w) (config_parse w file)
unfolding config_parse IsReady IsShaped
config_parse-IsValid w file = Ensures-allocate (IsValid w) no_memory _ (
    Ensures-bind IsReady (IsValid w) _ (read_bytes w first_reader file)
      (read_bytes-IsReady w first_reader file first_reader-IsReady)
      λ r q. at_eof-IsValid w r.machine.state r.machine.config q.1)
