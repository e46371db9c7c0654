-- ===== src/Config/Reader.antt =====
-- src/config.c, the loop of `config_parse` over the bytes of the file.
use cfloor.Base.{
  ℕ, ◌+◌, ◌-◌, Bool, ◌||◌, [], ◌∷◌, ◌++◌, Bytes, c_string, length, Alloc, ◌>>=◌, ◌>>◌, return, fail,
  allocate, if◌then◌else◌, leb, ◌==◌,
}
use cfloor.Config.{
  Config, State, ConfigError, Surroundings, Machine, empty_config, no_memory, token_too_long,
  unexpected_eof,
}
use cfloor.Config.Switch.{switch}
use cfloor.Config.Validate.{finish}

-- MAX_TOKEN_LENGTH, the size of the buffer `currentToken`.
abbrev pub max_token_length : ℕ
max_token_length = 128

pub record Reader : Type 0 where
  pub machine : Machine
  pub token : Bytes
  pub line : ℕ

abbrev pub is_blank : ℕ → Bool
is_blank c = c == b' ' || c == b'\t' || c == b'\r' || c == b'\n'

-- The token's end; `line` has been counted up already if it is the end of a line.
unfoldable pub end_token : Surroundings → Reader → Bytes → ℕ → Alloc ConfigError Reader
end_token w r [] line = return (record r { line = line })
end_token w r (c ∷ cs) line = do
  m ← switch w r.machine.state r.machine.config (c_string (c ∷ cs)) r.line
  return (record { machine = m; token = []; line = line })

unfoldable pub read_byte : Surroundings → Reader → ℕ → Alloc ConfigError Reader
unfolding end_token
read_byte w r c =
    if is_blank c
    then end_token w r r.token (if c == b'\n' then r.line + 1 else r.line)
    else if leb (max_token_length - 1) (length r.token)
    then fail (token_too_long r.line)
    else return (record r { token = r.token ++ (c ∷ []) })

unfoldable pub read_bytes : Surroundings → Reader → Bytes → Alloc ConfigError Reader
read_bytes w r [] = return r
read_bytes w r (c ∷ cs) = do r' ← read_byte w r c; read_bytes w r' cs

abbrev pub first_reader : Reader
first_reader = record {
  machine = record { config = empty_config; state = State.root };
  token = [];
  line = 1;
}

-- At the end of the file a token with no blank behind it is dropped.
unfoldable pub at_eof : Surroundings → State → Config → Alloc ConfigError Config
at_eof w State.root c = finish w c
at_eof w _ c = fail unexpected_eof

unfoldable pub config_parse : Surroundings → Bytes → Alloc ConfigError Config
unfolding at_eof
config_parse w file = do
  allocate no_memory
  r ← read_bytes w first_reader file
  at_eof w r.machine.state r.machine.config
