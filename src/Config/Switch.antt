-- ===== src/Config/Switch.antt =====
-- src/config.c, the `switch(state)` of `config_parse`.
use cfloor.Base.{ℕ, Bytes}
use cfloor.Config.{Config, State, Surroundings}
use cfloor.Config.Tokens.{
  Step, expect, at_root, at_bind_value, at_bind_content, at_ssl_content, at_ssl_key_value,
  at_ssl_cert_value,
}
use cfloor.Config.Inner.{
  at_site_content, at_site_host_value, at_site_root_value, at_handler_value, at_handler_content,
  at_type_value, at_index_value, at_logging_content, at_access_file_value, at_server_file_value,
  at_verbosity_value,
}

-- The states for SSL are compiled in with SSL_SUPPORT only; without it no token leads to them.
unfoldable pub switch : Surroundings → State → Config → Bytes → ℕ → Step
switch w State.root c token line = at_root c token line
switch w State.bind_value c token line = at_bind_value c token line
switch w State.bind_brackets_open c token line = expect "{" State.bind_content c token line
switch w State.bind_content c token line = at_bind_content w c token line
switch w State.ssl_brackets_open c token line = expect "{" State.ssl_content c token line
switch w State.ssl_content c token line = at_ssl_content c token line
switch w State.ssl_key_equals c token line = expect "=" State.ssl_key_value c token line
switch w State.ssl_key_value c token line = at_ssl_key_value c token
switch w State.ssl_cert_equals c token line = expect "=" State.ssl_cert_value c token line
switch w State.ssl_cert_value c token line = at_ssl_cert_value c token
switch w State.site_brackets_open c token line = expect "{" State.site_content c token line
switch w State.site_content c token line = at_site_content c token line
switch w State.site_host_equals c token line = expect "=" State.site_host_value c token line
switch w State.site_host_value c token line = at_site_host_value c token
switch w State.site_root_equals c token line = expect "=" State.site_root_value c token line
switch w State.site_root_value c token line = at_site_root_value w c token
switch w State.handler_value c token line = at_handler_value c token
switch w State.handler_brackets_open c token line = expect "{" State.handler_content c token line
switch w State.handler_content c token line = at_handler_content c token line
switch w State.type_equals c token line = expect "=" State.type_value c token line
switch w State.type_value c token line = at_type_value c token line
switch w State.index_equals c token line = expect "=" State.index_value c token line
switch w State.index_value c token line = at_index_value c token line
switch w State.logging_brackets_open c token line = expect "{" State.logging_content c token line
switch w State.logging_content c token line = at_logging_content c token line
switch w State.access_file_equals c token line = expect "=" State.access_file_value c token line
switch w State.access_file_value c token line = at_access_file_value c token
switch w State.server_file_equals c token line = expect "=" State.server_file_value c token line
switch w State.server_file_value c token line = at_server_file_value c token
switch w State.verbosity_equals c token line = expect "=" State.verbosity_value c token line
switch w State.verbosity_value c token line = at_verbosity_value c token line
