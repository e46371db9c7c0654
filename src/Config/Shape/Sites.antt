-- ===== src/Config/Shape/Sites.antt =====
-- src/config.c, the switch of `config_parse`: the states of a site, a handler and the
-- logging.
use cfloor.Base.{ℕ, Option, none, some, Bytes, codes, equal, ◌>>◌, allocate, ◌||◌}
use cfloor.Config.{
  HandlerType, file_handler, cgi_handler, Handler, Site, LogSettings, Config, State, on_site,
  on_handler, no_memory, new_handler,
}
use cfloor.Config.Tokens.{go}
use cfloor.Config.Inner.{
  add_handler, open_handler, at_site_content, set_root, set_dir, at_handler_value,
  at_handler_content, set_type, at_type_value, add_index, add_index_file, at_logging_content,
  on_logging, set_verbosity, set_real_root, index_for, set_level,
}
use cfloor.Config.Shape.{
  Anything, HasDir, IsSite, InHandler, At, outside, in_site, at_dir, in_handler, append-Last,
}
use cfloor.Config.Shape.Steps.{
  Keeps, go-Keeps, fail-Keeps, if-Keeps, allocate-Keeps, two-Keep, on_site-lem, on_handler-lem,
  leave_handler, leave_site,
}

open_handler-Keeps : (c : Config) → At in_site c.binds → Keeps (open_handler c)
unfolding open_handler
open_handler-Keeps c p = two-Keep (go (on_site add_handler c) State.handler_value) (
    go-Keeps (on_site add_handler c) State.handler_value (
      on_site-lem IsSite (InHandler Anything) add_handler c
        (λ s r. append-Last HasDir Anything s.handlers new_handler r tt) p))

pub at_site_content-Keeps :
    (c : Config) (t : Bytes) (n : ℕ) → At in_site c.binds → Keeps (at_site_content c t n)
unfolding at_site_content
at_site_content-Keeps c t n p =
    if-Keeps (equal t (codes "handler")) (open_handler c) _ (open_handler-Keeps c p) (
      if-Keeps (equal t (codes "hostname") || equal t (codes "alias")) (go c State.site_host_equals)
        _ (go-Keeps c State.site_host_equals p)
        (if-Keeps (equal t (codes "root")) (go c State.site_root_equals) _
          (go-Keeps c State.site_root_equals p)
          (if-Keeps (equal t (codes "}")) (go c State.bind_content) _
            (go-Keeps c State.bind_content (leave_site c p)) (fail-Keeps _))))

-- A change to the current site, and one to the current handler, that leaves the shape alone.
pub site-Keeps :
    (f : Site → Site) (c : Config)
    → ((s : Site) → IsSite s → IsSite (f s))
    → At in_site c.binds
    → Keeps (go (on_site f c) State.site_content)
site-Keeps f c g p = go-Keeps (on_site f c) State.site_content (on_site-lem IsSite IsSite f c g p)

handler-Keeps :
    (f : Handler → Handler) (c : Config)
    → ((h : Handler) → HasDir h → HasDir (f h))
    → At in_handler c.binds
    → Keeps (go (on_handler f c) State.handler_content)
handler-Keeps f c g p =
    go-Keeps (on_handler f c) State.handler_content (on_handler-lem HasDir HasDir f c g p)

pub set_real_root-Keeps :
    (c : Config) (o : Option Bytes) → At in_site c.binds → Keeps (set_real_root c o)
unfolding set_real_root
set_real_root-Keeps c none p = fail-Keeps _
set_real_root-Keeps c (some r) p = site-Keeps (set_root r) c (λ s q. q) p

pub at_handler_value-Keeps :
    (c : Config) (t : Bytes) → At at_dir c.binds → Keeps (at_handler_value c t)
unfolding at_handler_value
at_handler_value-Keeps c t p =
    allocate-Keeps (go (on_handler (set_dir t) c) State.handler_brackets_open) (
      go-Keeps (on_handler (set_dir t) c) State.handler_brackets_open
        (on_handler-lem Anything HasDir (set_dir t) c (λ h q. tt) p))

pub at_handler_content-Keeps :
    (c : Config) (t : Bytes) (n : ℕ) → At in_handler c.binds → Keeps (at_handler_content c t n)
unfolding at_handler_content
at_handler_content-Keeps c t n p =
    if-Keeps (equal t (codes "type")) (go c State.type_equals) _ (go-Keeps c State.type_equals p) (
      if-Keeps (equal t (codes "index")) (go c State.index_equals) _
        (go-Keeps c State.index_equals p)
        (if-Keeps (equal t (codes "}")) (go c State.site_content) _
          (go-Keeps c State.site_content (leave_handler c p)) (fail-Keeps _)))

pub at_type_value-Keeps :
    (c : Config) (t : Bytes) (n : ℕ) → At in_handler c.binds → Keeps (at_type_value c t n)
unfolding at_type_value
at_type_value-Keeps c t n p =
    if-Keeps (equal t (codes "file"))
      (go (on_handler (set_type file_handler) c) State.handler_content) _
      (handler-Keeps (set_type file_handler) c (λ h q. q) p)
      (if-Keeps (equal t (codes "cgi"))
        (go (on_handler (set_type cgi_handler) c) State.handler_content) _
        (handler-Keeps (set_type cgi_handler) c (λ h q. q) p) (fail-Keeps _))

add_index_file-Keeps : (c : Config) (t : Bytes) → At in_handler c.binds → Keeps (add_index_file c t)
unfolding add_index_file
add_index_file-Keeps c t p =
    two-Keep (go (on_handler (add_index t) c) State.handler_content)
      (handler-Keeps (add_index t) c (λ h q. q) p)

pub index_for-Keeps :
    (o : Option HandlerType) (c : Config) (t : Bytes) (n : ℕ)
    → At in_handler c.binds
    → Keeps (index_for o c t n)
unfolding index_for
index_for-Keeps (some file_handler) c t n p = add_index_file-Keeps c t p
index_for-Keeps (some cgi_handler) c t n p = fail-Keeps _
index_for-Keeps none c t n p = fail-Keeps _

pub at_logging_content-Keeps :
    (c : Config) (t : Bytes) (n : ℕ) → At outside c.binds → Keeps (at_logging_content c t n)
unfolding at_logging_content
at_logging_content-Keeps c t n p =
    if-Keeps (equal t (codes "access")) (go c State.access_file_equals) _
      (go-Keeps c State.access_file_equals p)
      (if-Keeps (equal t (codes "server")) (go c State.server_file_equals) _
        (go-Keeps c State.server_file_equals p)
        (if-Keeps (equal t (codes "verbosity")) (go c State.verbosity_equals) _
          (go-Keeps c State.verbosity_equals p)
          (if-Keeps (equal t (codes "}")) (go c State.root) _ (go-Keeps c State.root p)
            (fail-Keeps _))))

pub log_file-Keeps :
    (f : LogSettings → LogSettings) (c : Config)
    → At outside c.binds
    → Keeps (allocate no_memory >> go (on_logging f c) State.logging_content)
log_file-Keeps f c p =
    allocate-Keeps (go (on_logging f c) State.logging_content)
      (go-Keeps (on_logging f c) State.logging_content p)

pub set_level-Keeps :
    (c : Config) (o : Option ℕ) (n : ℕ) → At outside c.binds → Keeps (set_level c o n)
unfolding set_level
set_level-Keeps c none n p = fail-Keeps _
set_level-Keeps c (some v) n p = go-Keeps (on_logging (set_verbosity v) c) State.logging_content p
