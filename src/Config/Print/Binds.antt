-- ===== src/Config/Print/Binds.antt =====
-- src/config.c, `config_parse` on the words of all binds.
use cfloor.Base.{
  ℕ, ◌≡◌, refl, sym, ap, ◌∙◌, append-nil, append_assoc, Bool, true, false, map, All, Option, none,
  some, List, [], ◌∷◌, ◌++◌, Bytes, codes, equal, has, Result, ok, Memory, resume,
}
use cfloor.Headers.Field.Trimmed.{split_colon-append}
use cfloor.Config.{
  ConfigError, SslSettings, Bind, LogSettings, Config, State, Surroundings, Machine, new_bind,
  on_bind, current_ssl,
}
use cfloor.Config.Switch.{switch}
use cfloor.Config.Tokens.{
  expect, open_bind, at_root, set_address, bind_to, bind_to_parts, at_bind_value, set_ssl,
  begin_ssl, at_bind_content, at_ssl_content, in_ssl, set_key, set_certificate, at_ssl_key_value,
  at_ssl_cert_value,
}
use cfloor.Config.Print.{
  BindPlan, setting, sites_words, ssl_words, bind_words, binds_words, ssl_of, host_of, bind_of,
}
use cfloor.Config.Print.Run.{run, with_bind, on_bind-with, current_ssl-with}
use cfloor.Config.Print.Inside.{SslFits, BindFits, from_bind, read_sites}

begun :
    (c : Config) (s : Bool) (o : Option SslSettings) (n : ℕ)
    → s ≡ true
    → o ≡ none
    → begin_ssl s o c n [] ≡ (
      ok (record {
        config = on_bind (set_ssl (record { private_key = none; certificate = none })) c;
        state = State.ssl_brackets_open;
      }),
      [],
    )
unfolding begin_ssl
begun c s o n e f = rw (e, f) refl

module _ (w : Surroundings) (real : Bytes → Bytes) (n : ℕ) (lg : LogSettings) where
  abbrev addressed : Bytes → Bytes → Option SslSettings → Bind
  addressed host port ssl = record {
    addr = some (host_of host);
    port = some port;
    ssl = ssl;
    sites = [];
  }

  abbrev no_files : SslSettings
  no_files = record { private_key = none; certificate = none }

  module _ (bs : List Bind) where
    abbrev from : Bind → List Bytes → Result ConfigError Machine × Memory
    from = from_bind w real n bs lg

    begin_words :
        (b : Bind) (rest : List Bytes)
        → w.ssl_support ≡ true
        → b.ssl ≡ none
        → from b (codes "ssl" ∷ rest)
          ≡ run w n (on_bind (set_ssl no_files) (with_bind bs lg b)) State.ssl_brackets_open rest []
    unfolding run switch at_bind_content equal
    begin_words b rest f e =
        ap (λ r. resume {B = Machine} r λ m. run w n m.config m.state rest)
          (begun (with_bind bs lg b) w.ssl_support (current_ssl (with_bind bs lg b)) n f
            (current_ssl-with bs lg b ∙ e))

    files_words :
        (c : Config) (key cert : Bytes) (rest : List Bytes)
        → run w n c State.ssl_brackets_open
            (codes "{" ∷ setting "key" key (setting "cert" cert (codes "}" ∷ rest)))
            []
          ≡ run w n
              (on_bind (in_ssl (set_certificate cert)) (on_bind (in_ssl (set_key key)) c))
              State.bind_content
              rest
              []
    unfolding run switch expect at_ssl_content at_ssl_key_value at_ssl_cert_value equal
    files_words c key cert rest = refl

    read_ssl :
        (host port : Bytes) (o : Option (Bytes × Bytes)) (rest : List Bytes)
        → SslFits w o
        → from (addressed host port none) (ssl_words o rest)
          ≡ from (addressed host port (ssl_of o)) rest
    read_ssl host port none rest f = refl
    read_ssl host port (some (key, cert)) rest f =
        let b : Bind = addressed host port none in
        let started : Bind = set_ssl no_files b in
        begin_words b (codes "{" ∷ setting "key" key (setting "cert" cert (codes "}" ∷ rest))) f.0
          refl
        ∙ files_words (on_bind (set_ssl no_files) (with_bind bs lg b)) key cert rest
        ∙ ap (λ c. run w n c State.bind_content rest [])
            (ap (λ c. on_bind (in_ssl (set_certificate cert)) (on_bind (in_ssl (set_key key)) c))
                (on_bind-with bs lg (set_ssl no_files) b)
              ∙ ap (on_bind (in_ssl (set_certificate cert)))
                  (on_bind-with bs lg (in_ssl (set_key key)) started)
              ∙ on_bind-with bs lg (in_ssl (set_certificate cert)) (in_ssl (set_key key) started))

    abbrev all_of : List Bind → Config
    all_of l = record { binds = l; logging = lg }

    address_words :
        (host port : Bytes) (rest : List Bytes)
        → has b':' host ≡ false
        → run w n
            (all_of bs)
            State.root
            (codes "bind" ∷ (host ++ (b':' ∷ port)) ∷ codes "{" ∷ rest)
            []
          ≡ from (addressed host port none) rest
    unfolding run switch at_root open_bind at_bind_value bind_to_parts bind_to expect equal
    address_words host port rest h = rw (split_colon-append host port h) (
        ap (λ c. run w n c State.bind_content rest [])
          (on_bind-with bs lg (set_address (host_of host) port) new_bind))

    close_bind :
        (b : Bind) (rest : List Bytes)
        → from b (codes "}" ∷ rest) ≡ run w n (all_of (bs ++ (b ∷ []))) State.root rest []
    unfolding run switch at_bind_content equal
    close_bind b rest = refl

    read_bind :
        (b : BindPlan) (rest : List Bytes)
        → BindFits w real b
        → run w n (all_of bs) State.root (bind_words b rest) []
          ≡ run w n (all_of (bs ++ (bind_of real b ∷ []))) State.root rest []
    read_bind b rest f =
        let close : List Bytes = codes "}" ∷ rest in
        address_words b.addr b.port (ssl_words b.ssl (sites_words b.sites close)) f.no_colon
        ∙ read_ssl b.addr b.port b.ssl (sites_words b.sites close) f.ssl
        ∙ read_sites w real n bs lg (addressed b.addr b.port (ssl_of b.ssl)) b.sites close f.sites
        ∙ close_bind (bind_of real b) rest

  -- The words of the binds, behind binds that have been read.
  pub read_binds :
      (bs : List Bind) (ps : List BindPlan) (rest : List Bytes)
      → All (BindFits w real) ps
      → run w n (record { binds = bs; logging = lg }) State.root (binds_words ps rest) []
        ≡ run w n (record { binds = bs ++ map (bind_of real) ps; logging = lg }) State.root rest []
  read_binds bs [] rest f = ap (λ l. run w n (all_of bs l) State.root rest []) (sym (append-nil bs))
  read_binds bs (p ∷ ps) rest f =
      read_bind bs p (binds_words ps rest) f.0
      ∙ read_binds (bs ++ (bind_of real p ∷ [])) ps rest f.1
      ∙ ap (λ l. run w n (all_of bs l) State.root rest [])
          (append_assoc bs (bind_of real p ∷ []) (map (bind_of real) ps))
