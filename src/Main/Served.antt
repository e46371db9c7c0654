-- ===== src/Main/Served.antt =====
-- What src/main.c starts the server with.
use cfloor.Base.{◌≡◌, ◌⊎◌, Option, none, some, List, [], Bytes, codes, Memory, ok, All}
use cfloor.Headers.{Headers, get}
use cfloor.Logging.{Logger}
use cfloor.Config.{Config, Surroundings}
use cfloor.Config.Reader.{config_parse}
use cfloor.Config.Valid.{IsValid}
use cfloor.Startup.{Streams, config_set_logging}
use cfloor.Startup.Binds.{NetworkingConfig}
use cfloor.Startup.Found.{IsFound}
use cfloor.Main.{Outcome, shut_down, serves, server_string}

-- The text of the file with the name.
abbrev pub text_of : (Bytes → Option Bytes) → Option Bytes → Option Bytes
text_of fopen none = none
text_of fopen (some name) = fopen name

-- The server's name is sent with every answer, unless there was no memory for the field.
abbrev pub IsNamed : Headers → Type 0
IsNamed hs = (get hs (codes "Server") ≡ some server_string) ⊎ (hs ≡ [])

-- A configuration that the server is started with: it is valid, the binds that are listened on are
-- found in it again, and the loggers are the ones that it asks for.
pub record IsServed (w : Surroundings) (f : Streams) (ls : List Logger) (text : Option Bytes)
    (c : Config) (n : NetworkingConfig) (ls' : List Logger) : Type 0 where
  pub read : (t : Bytes) × (h h' : Memory) × (text ≡ some t) × (config_parse w t h ≡ (ok c, h'))
  pub valid : IsValid w c
  pub found : All (IsFound c.binds) n.binds
  pub loggers : ls' ≡ config_set_logging f c.logging ls
  pub server : IsNamed n.default_headers

abbrev pub MayServe : Surroundings → Streams → List Logger → Option Bytes → Outcome → Type 0
MayServe w f ls text shut_down = Unit {0}
MayServe w f ls text (serves c n ls') = IsServed w f ls text c n ls'
