-- ===== src/Config/Shape/Steps.antt =====
-- The shape of the parser's state in src/config.c, and what the changes to the current bind, site
-- and handler do to it.
use Prim.Native.String.{String}
use cfloor.Base.{
  ℕ, Bool, Bytes, codes, equal, modify_last, Ensures, Ensures-return, Ensures-fail, Ensures-if,
  Ensures-allocate, fail, if◌then◌else◌, ◌>>◌, allocate,
}
use cfloor.Config.{
  Handler, Site, Bind, Config, State, ConfigError, Machine, on_bind, on_site, on_handler, no_memory,
}
use cfloor.Config.Shape.{
  Last, HasDir, IsSite, IsBind, InSite, InHandler, At, place_of, outside, in_bind, in_site,
  in_handler, modify_last-Last, Last-All, Last-weaken,
}
use cfloor.Config.Tokens.{Step, go, expect}

-- The current bind, site and handler exist where the state needs them.
unfoldable pub IsShaped : Machine → Type 0
IsShaped m = At (place_of m.state) m.config.binds

unfoldable pub Keeps : Step → Type 0
Keeps = Ensures IsShaped

abbrev machine : Config → State → Machine
machine c s = record { config = c; state = s }

pub go-Keeps : (c : Config) (s : State) → At (place_of s) c.binds → Keeps (go c s)
unfolding Keeps IsShaped
go-Keeps c s p = Ensures-return ConfigError IsShaped (machine c s) p

pub fail-Keeps : (e : ConfigError) → Keeps (fail e)
unfolding Keeps
fail-Keeps e = Ensures-fail IsShaped e

pub if-Keeps : (b : Bool) (m n : Step) → Keeps m → Keeps n → Keeps (if b then m else n)
unfolding Keeps
if-Keeps b m n = Ensures-if IsShaped b m n

pub allocate-Keeps : (m : Step) → Keeps m → Keeps (allocate no_memory >> m)
unfolding Keeps
allocate-Keeps m = Ensures-allocate IsShaped no_memory m

pub two-Keep : (m : Step) → Keeps m → Keeps (allocate no_memory >> (allocate no_memory >> m))
two-Keep m k = allocate-Keeps (allocate no_memory >> m) (allocate-Keeps m k)

-- What a change to the current bind, site or handler makes of the place.
abbrev pub InLast : (Bind → Type 0) → Config → Type 0
InLast Q c = Last IsBind Q c.binds

pub on_bind-lem :
    (Q R : Bind → Type 0) (f : Bind → Bind) (c : Config)
    → ((b : Bind) → Q b → R (f b))
    → InLast Q c
    → InLast R (on_bind f c)
unfolding on_bind
on_bind-lem Q R f c g p = modify_last-Last IsBind Q R f g c.binds p

pub on_site-lem :
    (Q R : Site → Type 0) (f : Site → Site) (c : Config)
    → ((s : Site) → Q s → R (f s))
    → InLast (InSite Q) c
    → InLast (InSite R) (on_site f c)
unfolding on_site
on_site-lem Q R f c g p =
    on_bind-lem (InSite Q) (InSite R) (λ b. record b { sites = modify_last f b.sites }) c
      (λ b q. (q.0, q.1, modify_last-Last IsSite Q R f g b.sites q.2)) p

pub on_handler-lem :
    (Q R : Handler → Type 0) (f : Handler → Handler) (c : Config)
    → ((h : Handler) → Q h → R (f h))
    → InLast (InSite (InHandler Q)) c
    → InLast (InSite (InHandler R)) (on_handler f c)
unfolding on_handler
on_handler-lem Q R f c g p =
    on_site-lem (InHandler Q) (InHandler R) (λ s. record s { handlers = modify_last f s.handlers })
      c (λ s q. modify_last-Last HasDir Q R f g s.handlers q) p

-- Leaving a handler, a site and a bind.
pub leave_handler : (c : Config) → At in_handler c.binds → At in_site c.binds
leave_handler c p =
    Last-weaken IsBind (InSite (InHandler HasDir)) (InSite IsSite)
      (λ b q. (
        q.0,
        q.1,
        Last-weaken IsSite (InHandler HasDir) IsSite
            (λ s r. Last-All HasDir HasDir (λ h d. d) s.handlers r) b.sites q.2,
      ))
      c.binds p

pub leave_site : (c : Config) → At in_site c.binds → At in_bind c.binds
leave_site c p =
    Last-weaken IsBind (InSite IsSite) IsBind
      (λ b q. (q.0, q.1, Last-All IsSite IsSite (λ s r. r) b.sites q.2)) c.binds p

pub leave_bind : (c : Config) → At in_bind c.binds → At outside c.binds
leave_bind c p = Last-All IsBind IsBind (λ b q. q) c.binds p

pub expect-Keeps :
    (wanted : String) (next : State) (c : Config) (token : Bytes) (line : ℕ)
    → At (place_of next) c.binds
    → Keeps (expect wanted next c token line)
unfolding expect
expect-Keeps wanted next c token line p =
    if-Keeps (equal token (codes wanted)) (go c next) _ (go-Keeps c next p) (fail-Keeps _)
