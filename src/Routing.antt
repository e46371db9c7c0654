-- ===== src/Routing.antt =====
-- `config_getHandler` of src/config.c: the bind that a connection came in on, the site for the
-- request's host, and the handler for its path.
mod Sites
mod Handlers
pub mod Served
mod Tests
use cfloor.Base.{
  ℕ, Bool, true, false, not, ◌&&◌, Option, none, some, List, [], ◌∷◌, Bytes, codes, equal, length,
  if◌then◌else◌, leb,
}
use cfloor.Config.{Handler, Site, Bind, Config}
use cfloor.Dir.{is_in_dir}

-- The handler whose function answers, or the page for an internal error.
pub data Answer : Type 0 where
  handled : Handler → Answer
  status500 : Answer

-- `strcmp(a, b) == 0`; it is undefined on NULL.
abbrev pub strcmp : Option Bytes → Bytes → Option Bool
strcmp none b = none
strcmp (some a) b = some (equal a b)

-- The second comparison is made only behind a first one that holds.
abbrev pub same_bind :
    Option Bool → Option Bool → Bind → Option (Option Bind) → Option (Option Bind)
same_bind none p b rest = none
same_bind (some false) p b rest = rest
same_bind (some true) none b rest = none
same_bind (some true) (some false) b rest = rest
same_bind (some true) (some true) b rest = some (some b)

unfoldable pub find_bind : List Bind → Bytes → Bytes → Option (Option Bind)
find_bind [] addr port = some none
find_bind (b ∷ bs) addr port =
    same_bind (strcmp b.addr addr) (strcmp b.port port) b (find_bind bs addr port)

-- `config_site` and `isWildcard`.
pub record Choice : Type 0 where
  pub site : Option Site
  pub wildcard : Bool

abbrev pub is_some : Option Site → Bool
is_some none = false
is_some (some s) = true

-- `config_site != NULL && !isWildcard`
abbrev pub is_exact : Choice → Bool
is_exact ch = is_some ch.site && not ch.wildcard

-- The loop over the hostnames of one site.
unfoldable pub match_names : Option Bytes → List Bytes → Site → Choice → Option Choice
match_names host [] s ch = some ch
match_names none (n ∷ ns) s ch = none
match_names (some host) (n ∷ ns) s ch =
    let rest = match_names (some host) ns s ch in
    if equal host n
    then some (record ch { site = some s })
    else if equal n (codes "*")
    then if is_exact ch then rest else some (record { site = some s; wildcard = true })
    else rest

-- Behind the hostnames of a site: the search ends if there is a site by then, whether it is this
-- one or not.
abbrev pub end_names : Option Choice → (Choice → Option Choice) → Option Choice
end_names none go = none
end_names (some ch) go = if is_some ch.site then some ch else go ch

-- A site with no hostname is for every host, and the search goes on.
abbrev pub try_site :
    Option Bytes → Site → List Bytes → Choice → (Choice → Option Choice) → Option Choice
try_site host s [] ch go =
    go (if is_exact ch then ch else record { site = some s; wildcard = true })
try_site host s (n ∷ ns) ch go = end_names (match_names host (n ∷ ns) s ch) go

unfoldable pub choose_site : Option Bytes → List Site → Choice → Option Choice
choose_site host [] ch = some ch
choose_site host (s ∷ ss) ch = try_site host s s.hostnames ch λ ch'. choose_site host ss ch'

-- `matchLength` and `config_handler`, and what follows in the loop over the handlers.
abbrev pub Rest : Type 0
Rest = ℕ → Option Handler → Option (Option Handler)

abbrev pub try_dir :
    Option Bool → Bytes → Handler → ℕ → Option Handler → Rest → Option (Option Handler)
try_dir none dir h match_length best go = none
try_dir (some true) dir h match_length best go = go (length dir) (some h)
try_dir (some false) dir h match_length best go = go match_length best

abbrev pub try_handler :
    Bytes → Handler → Option Bytes → ℕ → Option Handler → Rest → Option (Option Handler)
try_handler path h none match_length best go = none
try_handler path h (some dir) match_length best go =
    if leb (length dir) match_length
    then go match_length best
    else try_dir (is_in_dir path dir) dir h match_length best go

-- The longest directory that the path is in, the first of these.
unfoldable pub choose_handler : Bytes → List Handler → ℕ → Option Handler → Option (Option Handler)
choose_handler path [] match_length best = some best
choose_handler path (h ∷ hs) match_length best =
    try_handler path h h.dir match_length best λ m b. choose_handler path hs m b

abbrev pub answer : Option (Option Handler) → Option Answer
answer none = none
answer (some none) = some status500
answer (some (some h)) = some (handled h)

unfoldable pub in_site : Bytes → Option Site → Option Answer
in_site path none = some status500
in_site path (some s) = answer (choose_handler path s.handlers 0 none)

abbrev pub first_choice : Choice
first_choice = record { site = none; wildcard = false }

abbrev pub in_choice : Bytes → Option Choice → Option Answer
in_choice path none = none
in_choice path (some ch) = in_site path ch.site

unfoldable pub in_bind : Bytes → Option Bytes → Option (Option Bind) → Option Answer
in_bind path host none = none
in_bind path host (some none) = some status500
in_bind path host (some (some b)) = in_choice path (choose_site host b.sites first_choice)

-- `path` is that of the request, `host` its Host header, `addr` and `port` those of the bind.
-- The outer result is none where the code is undefined.
unfoldable pub get_handler : Config → Bytes → Option Bytes → Bytes → Bytes → Option Answer
get_handler c path host addr port = in_bind path host (find_bind c.binds addr port)
