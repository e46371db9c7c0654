-- ===== src/Config/Validate.antt =====
-- src/config.c, the loops behind the parser: what each bind, site and handler must have, and what
-- each handler is given. They stop at the first error.
use cfloor.Base.{
  Option, none, some, List, [], ◌∷◌, Bytes, Alloc, ◌>>=◌, ◌>>◌, return, fail, if◌then◌else◌,
}
use cfloor.Config.{
  Handler, Site, SslSettings, Bind, Config, ConfigError, Surroundings, missing_key,
  missing_certificate, ssl_failed, no_document_root, unknown_handler,
}

-- The handler's function, and the document root of its site.
unfoldable pub finish_handler : Bytes → Handler → Alloc ConfigError Handler
finish_handler document_root h = elim h.type [
  | none ↦ fail unknown_handler
  | some t ↦ return (record h { handler = some t; document_root = some document_root })
]

unfoldable pub finish_handlers : Bytes → List Handler → Alloc ConfigError (List Handler)
finish_handlers document_root [] = return []
finish_handlers document_root (h ∷ hs) = do
  h' ← finish_handler document_root h
  hs' ← finish_handlers document_root hs
  return (h' ∷ hs')

unfoldable pub finish_root : Option Bytes → Site → Alloc ConfigError Site
unfolding finish_handlers
finish_root none s = fail no_document_root
finish_root (some r) s = do hs ← finish_handlers r s.handlers; return (record s { handlers = hs })

unfoldable pub finish_sites : List Site → Alloc ConfigError (List Site)
finish_sites [] = return []
finish_sites (s ∷ ss) = do
  s' ← finish_root s.document_root s
  ss' ← finish_sites ss
  return (s' ∷ ss')

unfoldable pub check_files :
    Surroundings → Option Bytes → Option Bytes → Alloc ConfigError (Unit {0})
check_files w none certificate = fail missing_key
check_files w (some key) none = fail missing_certificate
check_files w (some key) (some certificate) =
    if w.ssl_init key certificate then return tt else fail ssl_failed

unfoldable pub check_ssl : Surroundings → Option SslSettings → Alloc ConfigError (Unit {0})
unfolding check_files
check_ssl w none = return tt
check_ssl w (some s) = check_files w s.private_key s.certificate

unfoldable pub finish_bind : Surroundings → Bind → Alloc ConfigError Bind
finish_bind w b = do check_ssl w b.ssl; ss ← finish_sites b.sites; return (record b { sites = ss })

unfoldable pub finish_binds : Surroundings → List Bind → Alloc ConfigError (List Bind)
finish_binds w [] = return []
finish_binds w (b ∷ bs) = do b' ← finish_bind w b; bs' ← finish_binds w bs; return (b' ∷ bs')

unfoldable pub finish : Surroundings → Config → Alloc ConfigError Config
finish w c = do bs ← finish_binds w c.binds; return (record c { binds = bs })
