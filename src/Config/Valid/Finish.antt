-- ===== src/Config/Valid/Finish.antt =====
-- src/config.c, the checks behind the parser: what they ensure of every bind, site and handler.
use cfloor.Base.{
  Bool, true, false, ◌≡◌, refl, Option, none, some, List, [], ◌∷◌, Bytes, All, Ensures,
  Ensures-return, Ensures-fail, Ensures-bind, fail, if◌then◌else◌, return,
}
use cfloor.Config.{
  HandlerType, Handler, Site, SslSettings, Bind, Config, ConfigError, Surroundings, ssl_failed,
}
use cfloor.Config.Validate.{
  finish_handler, finish_handlers, finish_root, finish_sites, check_files, check_ssl, finish_bind,
  finish_binds, finish,
}
use cfloor.Config.Shape.{Present, HasDir, IsSite, IsBind}
use cfloor.Config.Valid.{IsServed, IsServable, HasFiles, IsSecure, IsReachable, IsValid}

handler_with :
    (r : Bytes) (d : Option Bytes) (t : Option HandlerType) (f : Option HandlerType)
    (o : Option Bytes) (i : List Bytes)
    → Present d
    → Ensures (IsServed r) (
        finish_handler r
          (record { dir = d; type = t; handler = f; document_root = o; index_files = i }))
unfolding finish_handler
handler_with r d none f o i p = Ensures-fail (IsServed r) _
handler_with r d (some t) f o i p =
    Ensures-return ConfigError (IsServed r) _
      (record { dir = p; type = t; type_set = refl; handler_set = refl; root_set = refl })

finish_handlers-IsServed :
    (r : Bytes) (hs : List Handler)
    → All HasDir hs
    → Ensures (All (IsServed r)) (finish_handlers r hs)
unfolding finish_handlers
finish_handlers-IsServed r [] p = Ensures-return ConfigError (All (IsServed r)) [] tt
finish_handlers-IsServed r (h ∷ hs) p =
    Ensures-bind (IsServed r) (All (IsServed r)) _ (finish_handler r h)
      (handler_with r h.dir h.type h.handler h.document_root h.index_files p.0)
      λ h' q.
        Ensures-bind (All (IsServed r)) (All (IsServed r)) _ (finish_handlers r hs)
          (finish_handlers-IsServed r hs p.1)
          λ hs' qs. Ensures-return ConfigError (All (IsServed r)) (h' ∷ hs') (q, qs)

finish_root-IsServable :
    (o : Option Bytes) (s : Site)
    → IsSite s
    → s.document_root ≡ o
    → Ensures IsServable (finish_root o s)
unfolding finish_root
finish_root-IsServable none s p e = Ensures-fail IsServable _
finish_root-IsServable (some r) s p e =
    Ensures-bind (All (IsServed r)) IsServable _ (finish_handlers r s.handlers)
      (finish_handlers-IsServed r s.handlers p)
      λ hs q.
        Ensures-return ConfigError IsServable (record s { handlers = hs })
          (record { root = r; root_set = e; handlers = q })

finish_sites-IsServable :
    (ss : List Site) → All IsSite ss → Ensures (All IsServable) (finish_sites ss)
unfolding finish_sites
finish_sites-IsServable [] p = Ensures-return ConfigError (All IsServable) [] tt
finish_sites-IsServable (s ∷ ss) p =
    Ensures-bind IsServable (All IsServable) _ (finish_root s.document_root s)
      (finish_root-IsServable s.document_root s p.0 refl)
      λ s' q.
        Ensures-bind (All IsServable) (All IsServable) _ (finish_sites ss)
          (finish_sites-IsServable ss p.1)
          λ ss' qs. Ensures-return ConfigError (All IsServable) (s' ∷ ss') (q, qs)

accept :
    (w : Surroundings) (b : Bool) (s : SslSettings) (key certificate : Bytes)
    → s.private_key ≡ some key
    → s.certificate ≡ some certificate
    → w.ssl_init key certificate ≡ b
    → Ensures {E = ConfigError}
        (λ (u : Unit {0}). HasFiles w s)
        (if b then return tt else fail ssl_failed)
accept w true s k c ek ec e =
    Ensures-return ConfigError (λ (u : Unit {0}). HasFiles w s) tt
      (record { key = k; certificate = c; key_set = ek; certificate_set = ec; accepted = e })
accept w false s k c ek ec e = Ensures-fail (λ (u : Unit {0}). HasFiles w s) ssl_failed

check_files-HasFiles :
    (w : Surroundings) (k c : Option Bytes) (s : SslSettings)
    → s.private_key ≡ k
    → s.certificate ≡ c
    → Ensures (λ u. HasFiles w s) (check_files w k c)
unfolding check_files
check_files-HasFiles w none c s ek ec = Ensures-fail _ _
check_files-HasFiles w (some k) none s ek ec = Ensures-fail _ _
check_files-HasFiles w (some k) (some c) s ek ec = accept w (w.ssl_init k c) s k c ek ec refl

check_ssl-IsSecure :
    (w : Surroundings) (o : Option SslSettings) → Ensures (λ u. IsSecure w o) (check_ssl w o)
unfolding check_ssl
check_ssl-IsSecure w none = Ensures-return ConfigError _ tt tt
check_ssl-IsSecure w (some s) = check_files-HasFiles w s.private_key s.certificate s refl refl

finish_bind-IsReachable :
    (w : Surroundings) (b : Bind) → IsBind b → Ensures (IsReachable w) (finish_bind w b)
unfolding finish_bind
finish_bind-IsReachable w b p =
    Ensures-bind (λ u. IsSecure w b.ssl) (IsReachable w) _ (check_ssl w b.ssl)
      (check_ssl-IsSecure w b.ssl)
      λ u q.
        Ensures-bind (All IsServable) (IsReachable w) _ (finish_sites b.sites)
          (finish_sites-IsServable b.sites p.2)
          λ ss r.
            Ensures-return ConfigError (IsReachable w) (record b { sites = ss })
              (record { addr = p.0; port = p.1; ssl = q; sites = r })

finish_binds-IsReachable :
    (w : Surroundings) (bs : List Bind)
    → All IsBind bs
    → Ensures (All (IsReachable w)) (finish_binds w bs)
unfolding finish_binds
finish_binds-IsReachable w [] p = Ensures-return ConfigError (All (IsReachable w)) [] tt
finish_binds-IsReachable w (b ∷ bs) p =
    Ensures-bind (IsReachable w) (All (IsReachable w)) _ (finish_bind w b)
      (finish_bind-IsReachable w b p.0)
      λ b' q.
        Ensures-bind (All (IsReachable w)) (All (IsReachable w)) _ (finish_binds w bs)
          (finish_binds-IsReachable w bs p.1)
          λ bs' qs. Ensures-return ConfigError (All (IsReachable w)) (b' ∷ bs') (q, qs)

pub finish-IsValid :
    (w : Surroundings) (c : Config) → All IsBind c.binds → Ensures (IsValid w) (finish w c)
unfolding finish IsValid
finish-IsValid w c p =
    Ensures-bind (All (IsReachable w)) (IsValid w) _ (finish_binds w c.binds)
      (finish_binds-IsReachable w c.binds p)
      λ bs q. Ensures-return ConfigError (IsValid w) (record c { binds = bs }) q
