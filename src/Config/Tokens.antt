-- ===== src/Config/Tokens.antt =====
-- src/config.c, the switch of `config_parse`: what a token does in each state. `line` is the line
-- on which the token ends.
use Prim.Native.String.{String}
use cfloor.Base.{
  ℕ, Bool, true, false, Option, none, some, [], ◌∷◌, ◌++◌, Bytes, codes, equal, Alloc, ◌>>◌, return,
  fail, allocate, if◌then◌else◌,
}
use cfloor.Headers.Field.{split_colon}
use cfloor.Config.{
  SslSettings, Bind, Config, State, ConfigError, Surroundings, Machine, new_bind, new_site, on_bind,
  current_ssl, no_memory, no_ssl_support, unexpected_token, wrong_address, unknown_property,
  ssl_twice,
}

abbrev pub Step : Type 0
Step = Alloc ConfigError Machine

abbrev pub go : Config → State → Step
go c s = return (record { config = c; state = s })

-- A state that wants one given token.
unfoldable pub expect : String → State → Config → Bytes → ℕ → Step
expect wanted next c token line =
    if equal token (codes wanted) then go c next else fail (unexpected_token line)

abbrev pub add_bind : Config → Config
add_bind c = record c { binds = c.binds ++ (new_bind ∷ []) }

-- The bind, and the array that has room for it.
unfoldable pub open_bind : Config → Step
open_bind c = do allocate no_memory; allocate no_memory; go (add_bind c) State.bind_value

unfoldable pub at_root : Config → Bytes → ℕ → Step
unfolding open_bind
at_root c token line =
    if equal token (codes "bind")
    then open_bind c
    else if equal token (codes "logging")
    then go c State.logging_brackets_open
    else fail (unexpected_token line)

abbrev pub set_address : Bytes → Bytes → Bind → Bind
set_address host port b = record b { addr = some host; port = some port }

-- "*" stands for 0.0.0.0.
unfoldable pub bind_to : Config → Bytes → Bytes → Step
unfolding on_bind
bind_to c host port = do
  allocate no_memory
  allocate no_memory
  go (on_bind (set_address (if equal host (codes "*") then codes "0.0.0.0" else host) port) c)
      State.bind_brackets_open

-- The address ends at the first colon.
unfoldable pub bind_to_parts : Config → Option (Bytes × Bytes) → ℕ → Step
bind_to_parts c none line = fail (wrong_address line)
bind_to_parts c (some (host, port)) line = bind_to c host port

unfoldable pub at_bind_value : Config → Bytes → ℕ → Step
at_bind_value c token line = bind_to_parts c (split_colon token) line

abbrev pub add_site : Bind → Bind
add_site b = record b { sites = b.sites ++ (new_site ∷ []) }

abbrev pub set_ssl : SslSettings → Bind → Bind
set_ssl s b = record b { ssl = some s }

-- `#ifdef SSL_SUPPORT`, and whether the bind has settings already.
unfoldable pub begin_ssl : Bool → Option SslSettings → Config → ℕ → Step
unfolding on_bind
begin_ssl false s c line = fail no_ssl_support
begin_ssl true (some s) c line = fail (ssl_twice line)
begin_ssl true none c line = do
  allocate no_memory
  go (on_bind (set_ssl (record { private_key = none; certificate = none })) c)
      State.ssl_brackets_open

unfoldable pub open_site : Config → Step
unfolding on_bind
open_site c = do
  allocate no_memory
  allocate no_memory
  go (on_bind add_site c) State.site_brackets_open

unfoldable pub at_bind_content : Surroundings → Config → Bytes → ℕ → Step
unfolding begin_ssl open_site current_ssl
at_bind_content w c token line =
    if equal token (codes "site")
    then open_site c
    else if equal token (codes "}")
    then go c State.root
    else if equal token (codes "ssl")
    then begin_ssl w.ssl_support (current_ssl c) c line
    else fail (unknown_property line)

unfoldable pub at_ssl_content : Config → Bytes → ℕ → Step
at_ssl_content c token line =
    if equal token (codes "key")
    then go c State.ssl_key_equals
    else if equal token (codes "cert")
    then go c State.ssl_cert_equals
    else if equal token (codes "}")
    then go c State.bind_content
    else fail (unknown_property line)

-- The settings of a bind, if it has any.
abbrev pub in_ssl : (SslSettings → SslSettings) → Bind → Bind
in_ssl f b = record b { ssl = elim b.ssl [ none ↦ none | some s ↦ some (f s) ] }

abbrev pub set_key : Bytes → SslSettings → SslSettings
set_key k s = record s { private_key = some k }

abbrev pub set_certificate : Bytes → SslSettings → SslSettings
set_certificate k s = record s { certificate = some k }

unfoldable pub at_ssl_key_value : Config → Bytes → Step
unfolding on_bind
at_ssl_key_value c token = do
  allocate no_memory
  go (on_bind (in_ssl (set_key token)) c) State.ssl_content

unfoldable pub at_ssl_cert_value : Config → Bytes → Step
unfolding on_bind
at_ssl_cert_value c token = do
  allocate no_memory
  go (on_bind (in_ssl (set_certificate token)) c) State.ssl_content
