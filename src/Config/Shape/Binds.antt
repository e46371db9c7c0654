-- ===== src/Config/Shape/Binds.antt =====
-- src/config.c, the switch of `config_parse`: the states outside a site.
use cfloor.Base.{
  ℕ, Bool, true, false, Option, none, some, Bytes, codes, equal, ◌>>◌, allocate, if◌then◌else◌,
}
use cfloor.Config.{
  SslSettings, Bind, Config, State, Surroundings, on_bind, current_ssl, no_memory, new_bind,
  new_site,
}
use cfloor.Config.Tokens.{
  go, add_bind, open_bind, at_root, set_address, bind_to, add_site, set_ssl, begin_ssl, open_site,
  at_bind_content, at_ssl_content, in_ssl, bind_to_parts,
}
use cfloor.Config.Shape.{
  HasSites, IsSite, IsBind, InSite, At, outside, at_address, in_bind, append-Last,
}
use cfloor.Config.Shape.Steps.{
  Keeps, go-Keeps, fail-Keeps, if-Keeps, allocate-Keeps, two-Keep, on_bind-lem, leave_bind,
}

pub at_root-Keeps : (c : Config) (t : Bytes) (n : ℕ) → At outside c.binds → Keeps (at_root c t n)
unfolding at_root open_bind
at_root-Keeps c t n p =
    if-Keeps (equal t (codes "bind")) (open_bind c) _
      (two-Keep (go (add_bind c) State.bind_value) (
        go-Keeps (add_bind c) State.bind_value (append-Last IsBind HasSites c.binds new_bind p tt)))
      (if-Keeps (equal t (codes "logging")) (go c State.logging_brackets_open) _
        (go-Keeps c State.logging_brackets_open p) (fail-Keeps _))

bind_to-Keeps : (c : Config) (h p : Bytes) → At at_address c.binds → Keeps (bind_to c h p)
unfolding bind_to
bind_to-Keeps c h p q =
    let f : Bind → Bind = set_address (if equal h (codes "*") then codes "0.0.0.0" else h) p in
    two-Keep (go (on_bind f c) State.bind_brackets_open) (
      go-Keeps (on_bind f c) State.bind_brackets_open
        (on_bind-lem HasSites IsBind f c (λ b r. (tt, tt, r)) q))

pub bind_to_parts-Keeps :
    (c : Config) (o : Option (Bytes × Bytes)) (n : ℕ)
    → At at_address c.binds
    → Keeps (bind_to_parts c o n)
unfolding bind_to_parts
bind_to_parts-Keeps c none n p = fail-Keeps _
bind_to_parts-Keeps c (some (host, port)) n p = bind_to-Keeps c host port p

begin_ssl-Keeps :
    (s : Bool) (o : Option SslSettings) (c : Config) (n : ℕ)
    → At in_bind c.binds
    → Keeps (begin_ssl s o c n)
unfolding begin_ssl
begin_ssl-Keeps false o c n p = fail-Keeps _
begin_ssl-Keeps true (some s) c n p = fail-Keeps _
begin_ssl-Keeps true none c n p =
    let f : Bind → Bind = set_ssl (record { private_key = none; certificate = none }) in
    allocate-Keeps (go (on_bind f c) State.ssl_brackets_open)
      (go-Keeps (on_bind f c) State.ssl_brackets_open (on_bind-lem IsBind IsBind f c (λ b r. r) p))

open_site-Keeps : (c : Config) → At in_bind c.binds → Keeps (open_site c)
unfolding open_site
open_site-Keeps c p = two-Keep (go (on_bind add_site c) State.site_brackets_open) (
    go-Keeps (on_bind add_site c) State.site_brackets_open (
      on_bind-lem IsBind (InSite IsSite) add_site c
        (λ b r. (r.0, r.1, append-Last IsSite IsSite b.sites new_site r.2 tt)) p))

pub at_bind_content-Keeps :
    (w : Surroundings) (c : Config) (t : Bytes) (n : ℕ)
    → At in_bind c.binds
    → Keeps (at_bind_content w c t n)
unfolding at_bind_content
at_bind_content-Keeps w c t n p =
    if-Keeps (equal t (codes "site")) (open_site c) _ (open_site-Keeps c p) (
      if-Keeps (equal t (codes "}")) (go c State.root) _ (go-Keeps c State.root (leave_bind c p)) (
        if-Keeps (equal t (codes "ssl")) (begin_ssl w.ssl_support (current_ssl c) c n) _
          (begin_ssl-Keeps w.ssl_support (current_ssl c) c n p) (fail-Keeps _)))

pub at_ssl_content-Keeps :
    (c : Config) (t : Bytes) (n : ℕ) → At in_bind c.binds → Keeps (at_ssl_content c t n)
unfolding at_ssl_content
at_ssl_content-Keeps c t n p =
    if-Keeps (equal t (codes "key")) (go c State.ssl_key_equals) _
      (go-Keeps c State.ssl_key_equals p)
      (if-Keeps (equal t (codes "cert")) (go c State.ssl_cert_equals) _
        (go-Keeps c State.ssl_cert_equals p)
        (if-Keeps (equal t (codes "}")) (go c State.bind_content) _
          (go-Keeps c State.bind_content p) (fail-Keeps _)))

-- A state that stores its token: one allocation, or two where an array grows as well.
pub ssl_value-Keeps :
    (f : SslSettings → SslSettings) (c : Config)
    → At in_bind c.binds
    → Keeps (allocate no_memory >> go (on_bind (in_ssl f) c) State.ssl_content)
ssl_value-Keeps f c p = allocate-Keeps (go (on_bind (in_ssl f) c) State.ssl_content) (
    go-Keeps (on_bind (in_ssl f) c) State.ssl_content
      (on_bind-lem IsBind IsBind (in_ssl f) c (λ b r. r) p))
