-- ===== src/Config/Print/Sections.antt =====
-- src/config.c, `config_parse` on the words of a handler.

use cfloor.Base.{
  ℕ, ◌≡◌, refl, ap, ◌∙◌, append-nil, append_assoc, some, List, [], ◌∷◌, ◌++◌, Bytes, codes, equal,
}
use cfloor.Config.{
  HandlerType, file_handler, cgi_handler, Handler, Site, Bind, LogSettings, Config, State,
  Surroundings, new_handler, on_site, on_handler,
}
use cfloor.Config.Switch.{switch}
use cfloor.Config.Tokens.{expect}
use cfloor.Config.Inner.{
  add_handler, open_handler, at_site_content, set_dir, at_handler_value, at_handler_content,
  set_type, at_type_value, add_index, add_index_file, index_for, at_index_value,
}
use cfloor.Config.Print.{handler_words, settings, setting, type_name, handler_of}
use cfloor.Config.Print.Run.{
  run, with_bind, put_site, put_handler, on_site-with, on_handler-with, current_type-with,
}

-- "index" is for file handlers.
abbrev pub IndexFits : HandlerType → List Bytes → Type 0
IndexFits file_handler is = Unit
IndexFits cgi_handler is = is ≡ []

abbrev handler : Bytes → HandlerType → List Bytes → Handler
handler d t is = handler_of (record { dir = d; type = t; index = is })

module _ (w : Surroundings) (n : ℕ) (bs : List Bind) (lg : LogSettings) (b : Bind)
    (ss : List Site) where
  abbrev pub in_site : Site → Config
  in_site s = with_bind bs lg (put_site b ss s)

  abbrev pub in_handler : Site → List Handler → Handler → Config
  in_handler s hs h = in_site (put_handler s hs h)

  read_index :
      (s : Site) (hs : List Handler) (d : Bytes) (is : List Bytes) (i : Bytes) (rest : List Bytes)
      → run w n
          (in_handler s hs (handler d file_handler is))
          State.handler_content
          (setting "index" i rest)
          []
        ≡ run w n
            (in_handler s hs (handler d file_handler (is ++ (i ∷ []))))
            State.handler_content
            rest
            []
  unfolding run switch at_handler_content expect at_index_value index_for add_index_file equal
  read_index s hs d is i rest =
      let h : Handler = handler d file_handler is in
      rw (current_type-with bs lg b ss s hs h) (
        ap (λ c. run w n c State.handler_content rest [])
          (on_handler-with bs lg b ss s hs (add_index i) h))

  read_indices :
      (s : Site) (hs : List Handler) (d : Bytes) (is js rest : List Bytes)
      → run w n
          (in_handler s hs (handler d file_handler is))
          State.handler_content
          (settings "index" js rest)
          []
        ≡ run w n
            (in_handler s hs (handler d file_handler (is ++ js)))
            State.handler_content
            rest
            []
  read_indices s hs d is [] rest = rw (append-nil is) refl
  read_indices s hs d is (j ∷ js) rest =
      read_index s hs d is j (settings "index" js rest)
      ∙ read_indices s hs d (is ++ (j ∷ [])) js rest
      ∙ ap (λ l. run w n (in_handler s hs (handler d file_handler l)) State.handler_content rest [])
          (append_assoc is (j ∷ []) js)

  begin_handler :
      (s : Site) (d : Bytes) (t : HandlerType) (rest : List Bytes)
      → run w n
          (in_site s)
          State.site_content
          (codes "handler" ∷ d ∷ codes "{" ∷ setting "type" (type_name t) rest)
          []
        ≡ run w n
            (on_handler (set_type t) (on_handler (set_dir d) (on_site add_handler (in_site s))))
            State.handler_content
            rest
            []
  unfolding run switch at_site_content open_handler at_handler_value expect at_handler_content
      at_type_value equal
  begin_handler s d file_handler rest = refl
  begin_handler s d cgi_handler rest = refl

  opened :
      (s : Site) (d : Bytes) (t : HandlerType)
      → on_handler (set_type t) (on_handler (set_dir d) (on_site add_handler (in_site s)))
        ≡ in_handler s s.handlers (handler d t [])
  opened s d t =
      ap (λ c. on_handler (set_type t) (on_handler (set_dir d) c))
        (on_site-with bs lg b ss add_handler s)
      ∙ ap (on_handler (set_type t))
          (on_handler-with bs lg b ss s s.handlers (set_dir d) new_handler)
      ∙ on_handler-with bs lg b ss s s.handlers (set_type t) (record new_handler { dir = some d })

  begun :
      (s : Site) (d : Bytes) (t : HandlerType) (rest : List Bytes)
      → run w n
          (in_site s)
          State.site_content
          (codes "handler" ∷ d ∷ codes "{" ∷ setting "type" (type_name t) rest)
          []
        ≡ run w n (in_handler s s.handlers (handler d t [])) State.handler_content rest []
  begun s d t rest =
      begin_handler s d t rest ∙ ap (λ c. run w n c State.handler_content rest []) (opened s d t)

  close_handler :
      (c : Config) (rest : List Bytes)
      → run w n c State.handler_content (codes "}" ∷ rest) [] ≡ run w n c State.site_content rest []
  unfolding run switch at_handler_content equal
  close_handler c rest = refl

  -- The words of a handler add it to the current site.
  pub read_handler :
      (s : Site) (d : Bytes) (t : HandlerType) (is : List Bytes) (rest : List Bytes)
      → IndexFits t is
      → run w n
          (in_site s)
          State.site_content
          (handler_words (record { dir = d; type = t; index = is }) rest)
          []
        ≡ run w n (in_handler s s.handlers (handler d t is)) State.site_content rest []
  read_handler s d file_handler is rest f =
      begun s d file_handler (settings "index" is (codes "}" ∷ rest))
      ∙ read_indices s s.handlers d [] is (codes "}" ∷ rest)
      ∙ close_handler (in_handler s s.handlers (handler d file_handler is)) rest
  read_handler s d cgi_handler is rest f = rw f (
      begun s d cgi_handler (codes "}" ∷ rest)
      ∙ close_handler (in_handler s s.handlers (handler d cgi_handler [])) rest)
