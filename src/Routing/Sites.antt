-- ===== src/Routing/Sites.antt =====
-- src/config.c, `config_getHandler`: which site of a bind it chooses.
use cfloor.Base.{
  ◌≡◌, ◌⊎◌, inl, inr, refl, ap, ◌∙◌, Bool, true, false, ◌||◌, Bool-cases, Option, none, some, List,
  [], ◌∷◌, Bytes, codes, equal, arith,
}
use cfloor.Config.{Site}
use cfloor.Routing.{
  Choice, is_some, is_exact, match_names, end_names, try_site, choose_site, first_choice,
}

-- One of the hostnames is the host or "*".
abbrev pub names : Bytes → List Bytes → Bool
names host [] = false
names host (n ∷ ns) = equal host n || equal n (codes "*") || names host ns

-- A site with no hostname serves every host.
abbrev pub serves_by : Bytes → List Bytes → Bool
serves_by host [] = true
serves_by host (n ∷ ns) = names host (n ∷ ns)

abbrev pub serves : Bytes → Site → Bool
serves host s = serves_by host s.hostnames

abbrev pub any_serves : Bytes → List Site → Bool
any_serves host [] = false
any_serves host (s ∷ ss) = serves host s || any_serves host ss

match_names-lem :
    (host : Bytes) (ns : List Bytes) (s : Site) (ch : Choice)
    → is_exact ch ≡ false
    → (ch' : Choice) × (match_names (some host) ns s ch ≡ some ch')
      × (names host ns ≡ true → ch'.site ≡ some s)
      × (names host ns ≡ false → ch' ≡ ch)
unfolding match_names
match_names-lem host [] s ch x = (ch, refl, λ e. ground arith, λ e. refl)
match_names-lem host (n ∷ ns) s ch x =
    let (r, e, found, kept) = match_names-lem host ns s ch x in
    elim (Bool-cases (equal host n)) [
      | inl t ↦ (record ch { site = some s }, ground arith, λ e. refl, λ e. ground arith)
      | inr f ↦ elim (Bool-cases (equal n (codes "*"))) [
        | inl t ↦
            (record { site = some s; wildcard = true }, ground arith, λ e. refl, λ e. ground arith)
        | inr g ↦ (r, ground arith, λ e. found (ground arith), λ e. kept (ground arith))
      ]
    ]

abbrev pub Member : Site → List Site → Type 0
Member s [] = ⊥
Member s (x ∷ xs) = (s ≡ x) ⊎ Member s xs

-- What the search from `ch` on may end with.
abbrev Picks : Bytes → List Site → Choice → Option Choice → Type 0
Picks host ss ch o =
    (r : Choice) × (o ≡ some r)
    × ((r.site ≡ ch.site) ⊎ ((s : Site) × (r.site ≡ some s) × Member s ss × (serves host s ≡ true)))
    × (any_serves host ss ≡ true → is_some r.site ≡ true)

module _ (host : Bytes) (s : Site) (ss : List Site) (ch : Choice) (go : Choice → Option Choice)
    (behind : (c : Choice) → is_exact c ≡ false → Picks host ss c (go c))
    (x : is_exact ch ≡ false) where
  open_site :
      serves host s ≡ true → Picks host (s ∷ ss) ch (go (record { site = some s; wildcard = true }))
  open_site v =
      let (r, e, o, a) = behind (record { site = some s; wildcard = true }) refl in
      (
        r,
        e,
        elim o [ inl k ↦ inr (s, k, inl refl, v) | inr (s', k, i, v') ↦ inr (s', k, inr i, v') ],
        λ t. elim o [ inl k ↦ ground arith | inr (s', k, i, v') ↦ ground arith ],
      )

  named :
      (b : Bool) (r : Choice)
      → serves host s ≡ b
      → (b ≡ true → r.site ≡ some s)
      → (b ≡ false → r ≡ ch)
      → Picks host (s ∷ ss) ch (end_names (some r) go)
  named true r v found kept = (
    r,
    ground (arith, found refl),
    inr (s, found refl, inl refl, v),
    λ t. ground (arith, found refl),
  )
  named false r v found kept = rw (kept refl) (elim (Bool-cases (is_some ch.site)) [
    | inl t ↦ (ch, ground arith, inl refl, λ a. t)
    | inr f ↦
        let (r', e, o, a) = behind ch x in
        (
          r',
          ground arith,
          elim o [ inl k ↦ inl k | inr (s', k, i, v') ↦ inr (s', k, inr i, v') ],
          λ t. a (ground arith),
        )
  ])

  by_hostnames :
      (ns : List Bytes)
      → s.hostnames ≡ ns
      → Picks host (s ∷ ss) ch (try_site (some host) s ns ch go)
  by_hostnames [] e = let v : serves host s ≡ true = rw e refl in rw x (open_site v)
  by_hostnames (n ∷ ns) e =
      let (r, m, found, kept) = match_names-lem host (n ∷ ns) s ch x in
      let v : serves host s ≡ names host (n ∷ ns) = rw e refl in
      rw m (named (names host (n ∷ ns)) r v found kept)

choose_from :
    (host : Bytes) (ss : List Site) (ch : Choice)
    → is_exact ch ≡ false
    → Picks host ss ch (choose_site (some host) ss ch)
unfolding choose_site
choose_from host [] ch x = (ch, refl, inl refl, λ e. ground arith)
choose_from host (s ∷ ss) ch x =
    by_hostnames host s ss ch (λ c. choose_site (some host) ss c) (λ c y. choose_from host ss c y) x
      s.hostnames refl

-- For a request with a Host header the search is defined. A site that it chooses serves the host,
-- by its name, by "*" or by having no hostname at all, and it chooses one whenever some site of
-- the bind serves the host.
pub choose_site-serves :
    (host : Bytes) (ss : List Site)
    → (r : Choice) × (choose_site (some host) ss first_choice ≡ some r)
      × ((r.site ≡ none) ⊎ ((s : Site) × (r.site ≡ some s) × Member s ss × (serves host s ≡ true)))
      × (any_serves host ss ≡ true → is_some r.site ≡ true)
choose_site-serves host ss = choose_from host ss first_choice refl

-- A site for every host ends the search at the next site that has hostnames, so that no site
-- behind the two is looked at, not even one with the very name of the host.
pub choose_site_hidden :
    (host : Bytes) (every other : Site) (ss : List Site) (n : Bytes) (ns : List Bytes)
    → every.hostnames ≡ []
    → other.hostnames ≡ n ∷ ns
    → names host (n ∷ ns) ≡ false
    → choose_site (some host) (every ∷ other ∷ ss) first_choice
      ≡ some (record { site = some every; wildcard = true })
unfolding choose_site
choose_site_hidden host every other ss n ns e f h =
    let wild : Choice = record { site = some every; wildcard = true } in
    let (r, m, found, kept) = match_names-lem host (n ∷ ns) other wild refl in
    ap (λ l. try_site (some host) every l first_choice λ c. choose_site (some host) (other ∷ ss) c)
      e
    ∙ ap (λ l. try_site (some host) other l wild λ c. choose_site (some host) ss c) f
    ∙ ap (λ o. end_names o λ c. choose_site (some host) ss c) (m ∙ ap some (kept h))

-- A request without a Host header at a bind whose first site has a hostname: NULL is compared.
pub choose_site_null :
    (s : Site) (ss : List Site) (ch : Choice) (n : Bytes) (ns : List Bytes)
    → s.hostnames ≡ n ∷ ns
    → choose_site none (s ∷ ss) ch ≡ none
unfolding choose_site match_names
choose_site_null s ss ch n ns e = rw (e) refl
