-- ===== src/Config/Print/Run.antt =====
-- src/config.c, the switch of `config_parse` on one word after the other, with memory for every
-- allocation.
use cfloor.Base.{
  ℕ, ◌≡◌, refl, ap, ◌∙◌, Option, none, some, List, [], ◌∷◌, ◌++◌, Bytes, modify_last, Alloc, ◌>>=◌,
  return,
}
use cfloor.Config.{
  HandlerType, Handler, Site, Bind, LogSettings, Config, State, ConfigError, Surroundings, Machine,
  on_bind, on_site, on_handler, get_last?, current_type, last_handler, current_ssl,
}
use cfloor.Config.Switch.{switch}

unfoldable pub run : Surroundings → ℕ → Config → State → List Bytes → Alloc ConfigError Machine
run w n c s [] = return (record { config = c; state = s })
run w n c s (t ∷ ts) = do m ← switch w s c t n; run w n m.config m.state ts

-- A configuration whose current bind, site and handler are the last ones.
abbrev pub with_bind : List Bind → LogSettings → Bind → Config
with_bind bs lg b = record { binds = bs ++ (b ∷ []); logging = lg }

abbrev pub put_site : Bind → List Site → Site → Bind
put_site b ss s = record b { sites = ss ++ (s ∷ []) }

abbrev pub put_handler : Site → List Handler → Handler → Site
put_handler s hs h = record s { handlers = hs ++ (h ∷ []) }

modify_last-append :
    {A : Type 0}
    → (f : A → A) (xs : List A) (x : A) → modify_last f (xs ++ (x ∷ [])) ≡ xs ++ (f x ∷ [])
modify_last-append f [] x = refl
modify_last-append f (y ∷ []) x = refl
modify_last-append f (y ∷ z ∷ xs) x = ap (◌∷◌ y) (modify_last-append f (z ∷ xs) x)

get_last?-append : {A : Type 0} → (xs : List A) (x : A) → get_last? (xs ++ (x ∷ [])) ≡ some x
get_last?-append [] x = refl
get_last?-append (y ∷ []) x = refl
get_last?-append (y ∷ z ∷ xs) x = get_last?-append (z ∷ xs) x

module _ (bs : List Bind) (lg : LogSettings) where
  pub on_bind-with :
      (f : Bind → Bind) (b : Bind) → on_bind f (with_bind bs lg b) ≡ with_bind bs lg (f b)
  unfolding on_bind
  on_bind-with f b = ap (λ l. record { binds = l; logging = lg }) (modify_last-append f bs b)

  pub current_ssl-with : (b : Bind) → current_ssl (with_bind bs lg b) ≡ b.ssl
  unfolding current_ssl
  current_ssl-with b = rw (get_last?-append bs b, current_ssl) refl

  module _ (b : Bind) (ss : List Site) where
    pub on_site-with :
        (f : Site → Site) (s : Site)
        → on_site f (with_bind bs lg (put_site b ss s)) ≡ with_bind bs lg (put_site b ss (f s))
    unfolding on_site
    on_site-with f s =
        on_bind-with (λ x. record x { sites = modify_last f x.sites }) (put_site b ss s)
        ∙ ap (λ l. with_bind bs lg (record b { sites = l })) (modify_last-append f ss s)

    module _ (s : Site) (hs : List Handler) where
      abbrev pub with_handler : Handler → Config
      with_handler h = with_bind bs lg (put_site b ss (put_handler s hs h))

      pub on_handler-with :
          (f : Handler → Handler) (h : Handler) → on_handler f (with_handler h) ≡ with_handler (f h)
      unfolding on_handler
      on_handler-with f h =
          on_site-with (λ x. record x { handlers = modify_last f x.handlers }) (put_handler s hs h)
          ∙ ap (λ l. with_bind bs lg (put_site b ss (record s { handlers = l })))
              (modify_last-append f hs h)

      pub current_type-with : (h : Handler) → current_type (with_handler h) ≡ h.type
      unfolding current_type
      current_type-with h =
          ap
            (λ o. elim (last_handler o) as (λ _. Option HandlerType) [
              | none ↦ none
              | some x ↦ x.type
            ])
            (get_last?-append bs (put_site b ss (put_handler s hs h)))
          ∙ (unfold last_handler in
              rw (get_last?-append ss (put_handler s hs h), get_last?-append hs h) refl)
