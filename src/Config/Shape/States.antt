-- ===== src/Config/Shape/States.antt =====
-- src/config.c, the switch of `config_parse`: all states together.
use cfloor.Base.{ℕ, Bytes}
use cfloor.Headers.Field.{split_colon}
use cfloor.Logging.{strtologlevel}
use cfloor.Config.{Config, State, Surroundings, on_site, current_type}
use cfloor.Config.Switch.{switch}
use cfloor.Config.Tokens.{
  go, at_bind_value, set_key, set_certificate, at_ssl_key_value, at_ssl_cert_value,
}
use cfloor.Config.Inner.{
  add_hostname, at_site_host_value, at_site_root_value, at_index_value, set_access, set_server,
  at_access_file_value, at_server_file_value, at_verbosity_value,
}
use cfloor.Config.Shape.{At, place_of}
use cfloor.Config.Shape.Steps.{Keeps, two-Keep, expect-Keeps}
use cfloor.Config.Shape.Binds.{
  at_root-Keeps, bind_to_parts-Keeps, at_bind_content-Keeps, at_ssl_content-Keeps, ssl_value-Keeps,
}
use cfloor.Config.Shape.Sites.{
  at_site_content-Keeps, set_real_root-Keeps, site-Keeps, at_handler_value-Keeps,
  at_handler_content-Keeps, at_type_value-Keeps, index_for-Keeps, at_logging_content-Keeps,
  log_file-Keeps, set_level-Keeps,
}

-- Every state of the switch.
pub switch-Keeps :
    (w : Surroundings) (s : State) (c : Config) (t : Bytes) (n : ℕ)
    → At (place_of s) c.binds
    → Keeps (switch w s c t n)
unfolding switch at_bind_value at_site_root_value at_index_value at_verbosity_value at_ssl_key_value
    at_ssl_cert_value at_site_host_value at_access_file_value at_server_file_value
switch-Keeps w State.root c t n p = at_root-Keeps c t n p
switch-Keeps w State.bind_value c t n p = bind_to_parts-Keeps c (split_colon t) n p
switch-Keeps w State.bind_brackets_open c t n p = expect-Keeps "{" State.bind_content c t n p
switch-Keeps w State.bind_content c t n p = at_bind_content-Keeps w c t n p
switch-Keeps w State.ssl_brackets_open c t n p = expect-Keeps "{" State.ssl_content c t n p
switch-Keeps w State.ssl_content c t n p = at_ssl_content-Keeps c t n p
switch-Keeps w State.ssl_key_equals c t n p = expect-Keeps "=" State.ssl_key_value c t n p
switch-Keeps w State.ssl_key_value c t n p = ssl_value-Keeps (set_key t) c p
switch-Keeps w State.ssl_cert_equals c t n p = expect-Keeps "=" State.ssl_cert_value c t n p
switch-Keeps w State.ssl_cert_value c t n p = ssl_value-Keeps (set_certificate t) c p
switch-Keeps w State.site_brackets_open c t n p = expect-Keeps "{" State.site_content c t n p
switch-Keeps w State.site_content c t n p = at_site_content-Keeps c t n p
switch-Keeps w State.site_host_equals c t n p = expect-Keeps "=" State.site_host_value c t n p
switch-Keeps w State.site_host_value c t n p =
    two-Keep (go (on_site (add_hostname t) c) State.site_content)
      (site-Keeps (add_hostname t) c (λ s q. q) p)
switch-Keeps w State.site_root_equals c t n p = expect-Keeps "=" State.site_root_value c t n p
switch-Keeps w State.site_root_value c t n p = set_real_root-Keeps c (w.realpath t) p
switch-Keeps w State.handler_value c t n p = at_handler_value-Keeps c t p
switch-Keeps w State.handler_brackets_open c t n p = expect-Keeps "{" State.handler_content c t n p
switch-Keeps w State.handler_content c t n p = at_handler_content-Keeps c t n p
switch-Keeps w State.type_equals c t n p = expect-Keeps "=" State.type_value c t n p
switch-Keeps w State.type_value c t n p = at_type_value-Keeps c t n p
switch-Keeps w State.index_equals c t n p = expect-Keeps "=" State.index_value c t n p
switch-Keeps w State.index_value c t n p = index_for-Keeps (current_type c) c t n p
switch-Keeps w State.logging_brackets_open c t n p = expect-Keeps "{" State.logging_content c t n p
switch-Keeps w State.logging_content c t n p = at_logging_content-Keeps c t n p
switch-Keeps w State.access_file_equals c t n p = expect-Keeps "=" State.access_file_value c t n p
switch-Keeps w State.access_file_value c t n p = log_file-Keeps (set_access t) c p
switch-Keeps w State.server_file_equals c t n p = expect-Keeps "=" State.server_file_value c t n p
switch-Keeps w State.server_file_value c t n p = log_file-Keeps (set_server t) c p
switch-Keeps w State.verbosity_equals c t n p = expect-Keeps "=" State.verbosity_value c t n p
switch-Keeps w State.verbosity_value c t n p = set_level-Keeps c (strtologlevel t) n p
