-- ===== src/Config/Shape.antt =====
-- The pointers of the parser in src/config.c: which of the current bind, site and handler each
-- state wants, and what is complete by then.
mod Steps
mod Binds
mod Sites
mod States
pub mod Parse
use cfloor.Base.{ℕ, Option, none, some, List, [], ◌∷◌, ◌++◌, Bytes, All, modify_last}
use cfloor.Config.{Handler, Site, Bind, Config, State}

-- A pointer that is not NULL.
abbrev pub Present : Option Bytes → Type 0
Present none = ⊥
Present (some a) = Unit

-- There is a last element, which holds `Q`, and those before it hold `P`.
abbrev pub Last : {A : Type 0} → (A → Type 0) → (A → Type 0) → List A → Type 0
Last P Q [] = ⊥
Last P Q (x ∷ []) = Q x
Last P Q (x ∷ y ∷ xs) = P x × Last P Q (y ∷ xs)

abbrev pub Anything : {A : Type 0} → A → Type 0
Anything a = Unit

abbrev pub HasDir : Handler → Type 0
HasDir h = Present h.dir

abbrev pub IsSite : Site → Type 0
IsSite s = All HasDir s.handlers

-- A bind with its address and port whose sites hold `S`.
abbrev pub BindOf : (List Site → Type 0) → Bind → Type 0
BindOf S b = Present b.addr × Present b.port × S b.sites

abbrev pub HasSites : Bind → Type 0
HasSites b = All IsSite b.sites

abbrev pub IsBind : Bind → Type 0
IsBind = BindOf (All IsSite)

abbrev pub InSite : (Site → Type 0) → Bind → Type 0
InSite S = BindOf (Last IsSite S)

abbrev pub InHandler : (Handler → Type 0) → Site → Type 0
InHandler H s = Last HasDir H s.handlers

-- How far the parser is inside a bind.
pub data Place : Type 0 where
  outside at_address in_bind in_site at_dir in_handler : Place

abbrev pub place_of : State → Place
place_of State.root = outside
place_of State.bind_value = at_address
place_of State.bind_brackets_open = in_bind
place_of State.bind_content = in_bind
place_of State.ssl_brackets_open = in_bind
place_of State.ssl_content = in_bind
place_of State.ssl_key_equals = in_bind
place_of State.ssl_key_value = in_bind
place_of State.ssl_cert_equals = in_bind
place_of State.ssl_cert_value = in_bind
place_of State.site_brackets_open = in_site
place_of State.site_content = in_site
place_of State.site_host_equals = in_site
place_of State.site_host_value = in_site
place_of State.site_root_equals = in_site
place_of State.site_root_value = in_site
place_of State.handler_value = at_dir
place_of State.handler_brackets_open = in_handler
place_of State.handler_content = in_handler
place_of State.type_equals = in_handler
place_of State.type_value = in_handler
place_of State.index_equals = in_handler
place_of State.index_value = in_handler
place_of State.logging_brackets_open = outside
place_of State.logging_content = outside
place_of State.access_file_equals = outside
place_of State.access_file_value = outside
place_of State.server_file_equals = outside
place_of State.server_file_value = outside
place_of State.verbosity_equals = outside
place_of State.verbosity_value = outside

abbrev pub At : Place → List Bind → Type 0
At outside = All IsBind
At at_address = Last IsBind HasSites
At in_bind = Last IsBind IsBind
At in_site = Last IsBind (InSite IsSite)
At at_dir = Last IsBind (InSite (InHandler Anything))
At in_handler = Last IsBind (InSite (InHandler HasDir))

module _ {A : Type 0} where
  pub modify_last-Last :
      (P Q R : A → Type 0) (f : A → A)
      → ((x : A) → Q x → R (f x))
      → (xs : List A) → Last P Q xs
      → Last P R (modify_last f xs)
  modify_last-Last P Q R f g [] q = q
  modify_last-Last P Q R f g (x ∷ []) q = g x q
  modify_last-Last P Q R f g (x ∷ y ∷ []) q = (q.0, g y q.1)
  modify_last-Last P Q R f g (x ∷ y ∷ z ∷ xs) q = (q.0, modify_last-Last P Q R f g (y ∷ z ∷ xs) q.1)

  pub append-Last :
      (P Q : A → Type 0) (xs : List A) (x : A) → All P xs → Q x → Last P Q (xs ++ (x ∷ []))
  append-Last P Q [] x p q = q
  append-Last P Q (y ∷ []) x p q = (p.0, q)
  append-Last P Q (y ∷ z ∷ xs) x p q = (p.0, append-Last P Q (z ∷ xs) x p.1 q)

  -- The last one is done.
  pub Last-All : (P Q : A → Type 0) → ((x : A) → Q x → P x) → (xs : List A) → Last P Q xs → All P xs
  Last-All P Q g [] q = absurd q
  Last-All P Q g (x ∷ []) q = (g x q, tt)
  Last-All P Q g (x ∷ y ∷ xs) q = (q.0, Last-All P Q g (y ∷ xs) q.1)

  pub Last-weaken :
      (P Q R : A → Type 0) → ((x : A) → Q x → R x) → (xs : List A) → Last P Q xs → Last P R xs
  Last-weaken P Q R g [] q = q
  Last-weaken P Q R g (x ∷ []) q = g x q
  Last-weaken P Q R g (x ∷ y ∷ xs) q = (q.0, Last-weaken P Q R g (y ∷ xs) q.1)
