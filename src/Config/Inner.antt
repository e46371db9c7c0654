-- ===== src/Config/Inner.antt =====
-- src/config.c, the switch of `config_parse`: what a token does inside a site, a handler and the
-- logging.
use cfloor.Base.{
  ℕ, ◌||◌, Option, none, some, [], ◌∷◌, ◌++◌, Bytes, codes, equal, ◌>>◌, fail, allocate,
  if◌then◌else◌,
}
use cfloor.Logging.{strtologlevel}
use cfloor.Config.{
  HandlerType, file_handler, cgi_handler, Handler, Site, LogSettings, Config, State, Surroundings,
  new_handler, on_site, on_handler, current_type, no_memory, no_real_path, unexpected_token,
  unknown_property, unknown_type, not_file_handler,
}
use cfloor.Config.Tokens.{Step, go}

abbrev pub add_handler : Site → Site
add_handler s = record s { handlers = s.handlers ++ (new_handler ∷ []) }

unfoldable pub open_handler : Config → Step
unfolding on_site
open_handler c = do
  allocate no_memory
  allocate no_memory
  go (on_site add_handler c) State.handler_value

unfoldable pub at_site_content : Config → Bytes → ℕ → Step
unfolding open_handler
at_site_content c token line =
    if equal token (codes "handler")
    then open_handler c
    else if equal token (codes "hostname") || equal token (codes "alias")
    then go c State.site_host_equals
    else if equal token (codes "root")
    then go c State.site_root_equals
    else if equal token (codes "}")
    then go c State.bind_content
    else fail (unknown_property line)

abbrev pub add_hostname : Bytes → Site → Site
add_hostname h s = record s { hostnames = s.hostnames ++ (h ∷ []) }

unfoldable pub at_site_host_value : Config → Bytes → Step
unfolding on_site
at_site_host_value c token = do
  allocate no_memory
  allocate no_memory
  go (on_site (add_hostname token) c) State.site_content

abbrev pub set_root : Bytes → Site → Site
set_root r s = record s { document_root = some r }

unfoldable pub set_real_root : Config → Option Bytes → Step
unfolding on_site
set_real_root c none = fail no_real_path
set_real_root c (some r) = go (on_site (set_root r) c) State.site_content

unfoldable pub at_site_root_value : Surroundings → Config → Bytes → Step
at_site_root_value w c token = set_real_root c (w.realpath token)

abbrev pub set_dir : Bytes → Handler → Handler
set_dir d h = record h { dir = some d }

unfoldable pub at_handler_value : Config → Bytes → Step
unfolding on_handler
at_handler_value c token = do
  allocate no_memory
  go (on_handler (set_dir token) c) State.handler_brackets_open

unfoldable pub at_handler_content : Config → Bytes → ℕ → Step
at_handler_content c token line =
    if equal token (codes "type")
    then go c State.type_equals
    else if equal token (codes "index")
    then go c State.index_equals
    else if equal token (codes "}")
    then go c State.site_content
    else fail (unknown_property line)

abbrev pub set_type : HandlerType → Handler → Handler
set_type t h = record h { type = some t }

unfoldable pub at_type_value : Config → Bytes → ℕ → Step
unfolding on_handler
at_type_value c token line =
    if equal token (codes "file")
    then go (on_handler (set_type file_handler) c) State.handler_content
    else if equal token (codes "cgi")
    then go (on_handler (set_type cgi_handler) c) State.handler_content
    else fail (unknown_type line)

abbrev pub add_index : Bytes → Handler → Handler
add_index n h = record h { index_files = h.index_files ++ (n ∷ []) }

unfoldable pub add_index_file : Config → Bytes → Step
unfolding on_handler
add_index_file c token = do
  allocate no_memory
  allocate no_memory
  go (on_handler (add_index token) c) State.handler_content

-- Only behind the type, which has to be "file".
unfoldable pub index_for : Option HandlerType → Config → Bytes → ℕ → Step
index_for (some file_handler) c token line = add_index_file c token
index_for (some cgi_handler) c token line = fail (not_file_handler line)
index_for none c token line = fail (not_file_handler line)

unfoldable pub at_index_value : Config → Bytes → ℕ → Step
at_index_value c token line = index_for (current_type c) c token line

unfoldable pub at_logging_content : Config → Bytes → ℕ → Step
at_logging_content c token line =
    if equal token (codes "access")
    then go c State.access_file_equals
    else if equal token (codes "server")
    then go c State.server_file_equals
    else if equal token (codes "verbosity")
    then go c State.verbosity_equals
    else if equal token (codes "}")
    then go c State.root
    else fail (unknown_property line)

abbrev pub on_logging : (LogSettings → LogSettings) → Config → Config
on_logging f c = record c { logging = f c.logging }

abbrev pub set_access : Bytes → LogSettings → LogSettings
set_access f l = record l { access_logfile = some f }

abbrev pub set_server : Bytes → LogSettings → LogSettings
set_server f l = record l { server_logfile = some f }

abbrev pub set_verbosity : ℕ → LogSettings → LogSettings
set_verbosity v l = record l { server_verbosity = v }

unfoldable pub at_access_file_value : Config → Bytes → Step
at_access_file_value c token = do
  allocate no_memory
  go (on_logging (set_access token) c) State.logging_content

unfoldable pub at_server_file_value : Config → Bytes → Step
at_server_file_value c token = do
  allocate no_memory
  go (on_logging (set_server token) c) State.logging_content

unfoldable pub set_level : Config → Option ℕ → ℕ → Step
set_level c none line = fail (unexpected_token line)
set_level c (some v) line = go (on_logging (set_verbosity v) c) State.logging_content

unfoldable pub at_verbosity_value : Config → Bytes → ℕ → Step
at_verbosity_value c token line = set_level c (strtologlevel token) line
