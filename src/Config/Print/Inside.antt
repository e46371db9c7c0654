-- ===== src/Config/Print/Inside.antt =====
-- src/config.c, `config_parse` on the words of a site, and of all sites of a bind.
use cfloor.Base.{
  ℕ, ◌≡◌, refl, sym, ap, ◌∙◌, append-nil, append_assoc, true, false, map, All, Option, none, some,
  List, [], ◌∷◌, ◌++◌, Bytes, codes, equal, has, Result, Memory,
}
use cfloor.Config.{
  ConfigError, Site, Bind, LogSettings, Config, State, Surroundings, Machine, new_site,
}
use cfloor.Config.Switch.{switch}
use cfloor.Config.Tokens.{expect, add_site, open_site, at_bind_content}
use cfloor.Config.Inner.{
  at_site_content, add_hostname, at_site_host_value, set_root, set_real_root, at_site_root_value,
}
use cfloor.Config.Print.{
  HandlerPlan, SitePlan, BindPlan, setting, settings, handlers_words, site_words, sites_words,
  handler_of, site_of,
}
use cfloor.Config.Print.Run.{run, with_bind, put_site, on_bind-with, on_site-with}
use cfloor.Config.Print.Sections.{IndexFits, in_site, read_handler}

abbrev pub HandlerFits : HandlerPlan → Type 0
HandlerFits h = IndexFits h.type h.index

-- The document root has a real path, and the handlers are right.
pub record SiteFits (w : Surroundings) (real : Bytes → Bytes) (s : SitePlan) : Type 0 where
  pub resolves : w.realpath s.root ≡ some (real s.root)
  pub handlers : All HandlerFits s.handlers

-- "ssl" wants SSL_SUPPORT, and files that OpenSSL takes.
abbrev pub SslFits : Surroundings → Option (Bytes × Bytes) → Type 0
SslFits w none = Unit
SslFits w (some (key, cert)) = (w.ssl_support ≡ true) × (w.ssl_init key cert ≡ true)

pub record BindFits (w : Surroundings) (real : Bytes → Bytes) (b : BindPlan) : Type 0 where
  pub no_colon : has b':' b.addr ≡ false
  pub ssl : SslFits w b.ssl
  pub sites : All (SiteFits w real) b.sites

module _ (w : Surroundings) (real : Bytes → Bytes) (n : ℕ) (bs : List Bind) (lg : LogSettings) where
  module _ (b : Bind) (ss : List Site) where
    abbrev inside : Site → Config
    inside = in_site w n bs lg b ss

    abbrev from_site : Site → List Bytes → Result ConfigError Machine × Memory
    from_site s rest = run w n (inside s) State.site_content rest []

    read_handlers :
        (s : Site) (hs : List HandlerPlan) (rest : List Bytes)
        → All HandlerFits hs
        → from_site s (handlers_words hs rest)
          ≡ from_site (record s { handlers = s.handlers ++ map handler_of hs }) rest
    read_handlers s [] rest f =
        ap (λ l. from_site (record s { handlers = l }) rest) (sym (append-nil s.handlers))
    read_handlers s (h ∷ hs) rest f =
        read_handler w n bs lg b ss s h.dir h.type h.index (handlers_words hs rest) f.0
        ∙ read_handlers (record s { handlers = s.handlers ++ (handler_of h ∷ []) }) hs rest f.1
        ∙ ap (λ l. from_site (record s { handlers = l }) rest)
            (append_assoc s.handlers (handler_of h ∷ []) (map handler_of hs))

    read_hostname :
        (s : Site) (h : Bytes) (rest : List Bytes)
        → from_site s (setting "hostname" h rest) ≡ from_site (add_hostname h s) rest
    unfolding run switch at_site_content expect at_site_host_value equal
    read_hostname s h rest =
        ap (λ c. run w n c State.site_content rest []) (on_site-with bs lg b ss (add_hostname h) s)

    read_hostnames :
        (s : Site) (hs : List Bytes) (rest : List Bytes)
        → from_site s (settings "hostname" hs rest)
          ≡ from_site (record s { hostnames = s.hostnames ++ hs }) rest
    read_hostnames s [] rest =
        ap (λ l. from_site (record s { hostnames = l }) rest) (sym (append-nil s.hostnames))
    read_hostnames s (h ∷ hs) rest =
        read_hostname s h (settings "hostname" hs rest)
        ∙ read_hostnames (add_hostname h s) hs rest
        ∙ ap (λ l. from_site (record s { hostnames = l }) rest)
            (append_assoc s.hostnames (h ∷ []) hs)

    read_root :
        (s : Site) (r : Bytes) (rest : List Bytes)
        → w.realpath r ≡ some (real r)
        → from_site s (setting "root" r rest) ≡ from_site (set_root (real r) s) rest
    unfolding run switch at_site_content expect at_site_root_value set_real_root equal
    read_root s r rest e = rw e (
        ap (λ c. run w n c State.site_content rest [])
          (on_site-with bs lg b ss (set_root (real r)) s))

  abbrev pub from_bind : Bind → List Bytes → Result ConfigError Machine × Memory
  from_bind b rest = run w n (with_bind bs lg b) State.bind_content rest []

  open_words :
      (b : Bind) (rest : List Bytes)
      → from_bind b (codes "site" ∷ codes "{" ∷ rest) ≡ from_site b b.sites new_site rest
  unfolding run switch at_bind_content open_site expect equal
  open_words b rest = ap (λ c. run w n c State.site_content rest []) (on_bind-with bs lg add_site b)

  close_site :
      (b : Bind) (s : Site) (rest : List Bytes)
      → from_site b b.sites s (codes "}" ∷ rest) ≡ from_bind (put_site b b.sites s) rest
  unfolding run switch at_site_content equal
  close_site b s rest = refl

  read_site :
      (b : Bind) (s : SitePlan) (rest : List Bytes)
      → SiteFits w real s
      → from_bind b (site_words s rest) ≡ from_bind (put_site b b.sites (site_of real s)) rest
  read_site b s rest f =
      let close : List Bytes = codes "}" ∷ rest in
      let named : Site = record new_site { hostnames = s.hostnames } in
      let at_home : Site = set_root (real s.root) named in
      open_words b
        (settings "hostname" s.hostnames (setting "root" s.root (handlers_words s.handlers close)))
      ∙ read_hostnames b b.sites new_site s.hostnames
          (setting "root" s.root (handlers_words s.handlers close))
      ∙ read_root b b.sites named s.root (handlers_words s.handlers close) f.resolves
      ∙ read_handlers b b.sites at_home s.handlers close f.handlers
      ∙ close_site b (site_of real s) rest

  pub read_sites :
      (b : Bind) (ss : List SitePlan) (rest : List Bytes)
      → All (SiteFits w real) ss
      → from_bind b (sites_words ss rest)
        ≡ from_bind (record b { sites = b.sites ++ map (site_of real) ss }) rest
  read_sites b [] rest f =
      ap (λ l. from_bind (record b { sites = l }) rest) (sym (append-nil b.sites))
  read_sites b (s ∷ ss) rest f =
      read_site b s (sites_words ss rest) f.0
      ∙ read_sites (put_site b b.sites (site_of real s)) ss rest f.1
      ∙ ap (λ l. from_bind (record b { sites = l }) rest)
          (append_assoc b.sites (site_of real s ∷ []) (map (site_of real) ss))
