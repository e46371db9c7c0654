-- ===== src/Config/Print/RoundTrip.antt =====
-- src/config.c, `config_parse` on the text of a configuration that the grammar writes.
use cfloor.Base.{map, some, Bytes}
use cfloor.Config.{Handler, Site, Bind}
use cfloor.Config.Print.{HandlerPlan, SitePlan, BindPlan, handler_of, site_of, bind_of}

-- A handler, a site and a bind with what the checks at the end add to them.
abbrev pub served_handler : Bytes → HandlerPlan → Handler
served_handler root h = record (handler_of h) { handler = some h.type; document_root = some root }

abbrev pub served_site : (Bytes → Bytes) → SitePlan → Site
served_site real s = record (site_of real s) {
  handlers = map (served_handler (real s.root)) s.handlers;
}

abbrev pub served_bind : (Bytes → Bytes) → BindPlan → Bind
served_bind real b = record (bind_of real b) { sites = map (served_site real) b.sites }
