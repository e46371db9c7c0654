-- ===== src/Routing/Served.antt =====
-- src/config.c, `config_getHandler` on a configuration that `config_parse` returned.
use cfloor.Base.{
  Memory, ok, Ensures-ok, ◌≡◌, ◌⊎◌, inl, inr, refl, Bool, true, false, Option, none, some, List, [],
  ◌∷◌, Bytes, equal, All,
}
use cfloor.Config.{Handler, Site, Bind, Config, Surroundings}
use cfloor.Config.Reader.{config_parse}
use cfloor.Config.Shape.Parse.{config_parse-IsValid}
use cfloor.Config.Shape.{Present, HasDir}
use cfloor.Config.Valid.{IsServed, IsServable, IsReachable, IsValid}
use cfloor.Routing.{
  Answer, handled, status500, strcmp, same_bind, find_bind, answer, in_site, in_bind, get_handler,
}
use cfloor.Routing.Handlers.{Among, Chosen, choose_handler-Chosen}
use cfloor.Routing.Sites.{choose_site-serves, Member}

-- The handler stands in the configuration with a function and the document root of its site.
abbrev pub IsServableAnswer : Answer → Type 0
IsServableAnswer status500 = Unit
IsServableAnswer (handled h) = (root : Bytes) × IsServed root h

All-Among :
    (P : Handler → Type 0) (hs : List Handler) (h : Handler) → All P hs → Among (some h) hs → P h
All-Among P [] h p a = absurd a
All-Among P (x ∷ hs) h p (inl e) = let e' : h ≡ x = cc in rw e' p.0
All-Among P (x ∷ hs) h p (inr a) = All-Among P hs h p.1 a

All-Member : (ss : List Site) (s : Site) → All IsServable ss → Member s ss → IsServable s
All-Member [] s p a = absurd a
All-Member (x ∷ ss) s p (inl e) = rw e p.0
All-Member (x ∷ ss) s p (inr a) = All-Member ss s p.1 a

served-HasDir : (root : Bytes) (hs : List Handler) → All (IsServed root) hs → All HasDir hs
served-HasDir root [] p = tt
served-HasDir root (h ∷ hs) p = (p.0.dir, served-HasDir root hs p.1)

-- An outcome that is defined.
abbrev pub Answers : Option Answer → Type 0
Answers o = (a : Answer) × (o ≡ some a) × IsServableAnswer a

answer-Answers :
    (path root : Bytes) (hs : List Handler) (r : Option Handler)
    → All (IsServed root) hs
    → Chosen path hs 0 none r
    → Answers (answer (some r))
answer-Answers path root hs none p c = (status500, refl, tt)
answer-Answers path root hs (some h) p c = elim c.origin [
  | inl e ↦ absurd (cc)
  | inr a ↦ (handled h, refl, (root, All-Among (IsServed root) hs h p a))
]

in_site-Answers : (path : Bytes) (s : Site) → IsServable s → Answers (in_site path (some s))
unfolding in_site
in_site-Answers path s v =
    let (r, e, c) =
      choose_handler-Chosen path s.handlers 0 none (served-HasDir v.root s.handlers v.handlers)
        refl in
    rw e (answer-Answers path v.root s.handlers r v.handlers c)

in_bind-Answers :
    (w : Surroundings) (path host : Bytes) (b : Bind)
    → IsReachable w b
    → Answers (in_bind path (some host) (some (some b)))
unfolding in_bind
in_bind-Answers w path host b v =
    let (r, e, o, a) = choose_site-serves host b.sites in
    rw e (elim o [
      | inl n ↦ rw n (unfold in_site in (status500, refl, tt))
      | inr (s, k, i, t) ↦ rw k (in_site-Answers path s (All-Member b.sites s v.sites i))
    ])

-- The bind that the search ends at, if any, is one of those of the configuration.
abbrev Reaches : Surroundings → Option (Option Bind) → Type 0
Reaches w o = (o ≡ some none) ⊎ ((b : Bind) × (o ≡ some (some b)) × IsReachable w b)

same_bind-Reaches :
    (w : Surroundings) (x y : Option Bytes) (addr port : Bytes) (b : Bind)
    (rest : Option (Option Bind))
    → Present x
    → Present y
    → IsReachable w b
    → Reaches w rest
    → Reaches w (same_bind (strcmp x addr) (strcmp y port) b rest)
same_bind-Reaches w none y addr port b rest p q v r = absurd p
same_bind-Reaches w (some x) none addr port b rest p q v r = absurd q
same_bind-Reaches w (some x) (some y) addr port b rest p q v r =
    by_tests (equal x addr) (equal y port)
  where
    by_tests : (s t : Bool) → Reaches w (same_bind (some s) (some t) b rest)
    by_tests true true = inr (b, refl, v)
    by_tests true false = r
    by_tests false t = r

find_bind-Reaches :
    (w : Surroundings) (bs : List Bind) (addr port : Bytes)
    → All (IsReachable w) bs
    → Reaches w (find_bind bs addr port)
unfolding find_bind
find_bind-Reaches w [] addr port p = inl refl
find_bind-Reaches w (b ∷ bs) addr port p =
    same_bind-Reaches w b.addr b.port addr port b (find_bind bs addr port) p.0.addr p.0.port p.0
      (find_bind-Reaches w bs addr port p.1)

-- On a valid configuration, and for a request with a Host header, `config_getHandler` is defined:
-- it reads no NULL. What it returns is the page for an internal error or a handler that has its
-- directory, the function of its type and a document root.
pub get_handler-IsValid :
    (w : Surroundings) (c : Config) (path host addr port : Bytes)
    → IsValid w c
    → (a : Answer) × (get_handler c path (some host) addr port ≡ some a) × IsServableAnswer a
unfolding get_handler IsValid
get_handler-IsValid w c path host addr port v = elim (find_bind-Reaches w c.binds addr port v) [
  | inl n ↦ rw n (unfold in_bind in (status500, refl, tt))
  | inr (b, e, r) ↦ rw e (in_bind-Answers w path host b r)
]

-- From the file to the handler: whatever the configuration file holds and wherever memory fails, if
-- `config_parse` returns a configuration, then for every path, Host header and bind
-- `config_getHandler` is defined on it and returns the page for an internal error or a handler that
-- has its directory, the function of its type and a document root.
pub get_handler-config_parse :
    (w : Surroundings) (file : Bytes) (h h' : Memory) (c : Config) (path host addr port : Bytes)
    → config_parse w file h ≡ (ok c, h')
    → (a : Answer) × (get_handler c path (some host) addr port ≡ some a) × IsServableAnswer a
get_handler-config_parse w file h h' c path host addr port e =
    get_handler-IsValid w c path host addr port
      (Ensures-ok (IsValid w) (config_parse w file) h h' c (config_parse-IsValid w file) e)
