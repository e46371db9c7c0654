-- ===== src/Routing/Handlers.antt =====
-- src/config.c, `config_getHandler`: which handler of a site it chooses.
use cfloor.Base.{
  ℕ, ◌≤◌, ◌<◌, ◌≡◌, ◌⊎◌, inl, inr, refl, Bool, true, false, Option, none, some, List, [], ◌∷◌,
  Bytes, length, All, if◌then◌else◌, leb, arith,
}
use cfloor.Dir.{is_in_dir, base_of}
use cfloor.Config.{Handler}
use cfloor.Config.Shape.{Present, HasDir}
use cfloor.Routing.{try_dir, try_handler, choose_handler}

-- `matchLength` is the length of the directory of `config_handler`, which the path is in.
abbrev pub Held : Bytes → ℕ → Option Handler → Type 0
Held path m none = m ≡ 0
Held path m (some h) =
    (dir : Bytes) × (h.dir ≡ some dir) × (is_in_dir path dir ≡ some true) × (m ≡ length dir)

-- If the path is in the handler's directory, this is no longer than `top`.
abbrev pub Within : Bytes → ℕ → Handler → Type 0
Within path top h =
    (dir : Bytes) → h.dir ≡ some dir → is_in_dir path dir ≡ some true → length dir ≤ top

abbrev pub Among : Option Handler → List Handler → Type 0
Among r [] = ⊥
Among r (h ∷ hs) = (r ≡ some h) ⊎ Among r hs

pub record Chosen (path : Bytes) (hs : List Handler) (m : ℕ) (best r : Option Handler)
    : Type 0 where
  pub top : ℕ
  pub holds : Held path top r
  pub above : m ≤ top
  pub longest : All (Within path top) hs
  pub origin : (r ≡ best) ⊎ Among r hs

is_in_dir_total : (path dir : Bytes) → 1 ≤ length dir → (b : Bool) × (is_in_dir path dir ≡ some b)
unfolding is_in_dir base_of
is_in_dir_total path [] h = absurd (omega arith)
is_in_dir_total path (c ∷ cs) h = (_, refl)

module _ (path : Bytes) (h : Handler) (hs : List Handler) (m : ℕ) (best r : Option Handler) where
  Chosen-skip : Within path m h → Chosen path hs m best r → Chosen path (h ∷ hs) m best r
  Chosen-skip w c = record {
    top = c.top;
    holds = c.holds;
    above = c.above;
    longest = (λ dir e i. omega (arith, w dir e i, c.above), c.longest);
    origin = elim c.origin [ inl e ↦ inl e | inr a ↦ inr (inr a) ];
  }

  Chosen-take :
      (d : Bytes)
      → h.dir ≡ some d
      → m ≤ length d
      → Chosen path hs (length d) (some h) r
      → Chosen path (h ∷ hs) m best r
  Chosen-take d e l c = record {
    top = c.top;
    holds = c.holds;
    above = omega (arith, c.above);
    longest = (λ dir e' i. let same : dir ≡ d = cc in rw same c.above, c.longest);
    origin = elim c.origin [ inl o ↦ inr (inl o) | inr a ↦ inr (inr a) ];
  }

-- One handler, given what the loop does with the ones behind it.
abbrev Finds : Bytes → List Handler → ℕ → Option Handler → Option (Option Handler) → Type 0
Finds path hs m best o = (r : Option Handler) × (o ≡ some r) × Chosen path hs m best r

module _ (path : Bytes) (h : Handler) (hs : List Handler) (m : ℕ) (best : Option Handler)
    (go : ℕ → Option Handler → Option (Option Handler))
    (behind : (m' : ℕ) (b : Option Handler) → Held path m' b → Finds path hs m' b (go m' b))
    (q : Held path m best) where
  skipped : Within path m h → Finds path (h ∷ hs) m best (go m best)
  skipped w = let (r, e, c) = behind m best q in (r, e, Chosen-skip path h hs m best r w c)

  by_test :
      (d : Bytes) (b : Bool)
      → h.dir ≡ some d
      → is_in_dir path d ≡ some b
      → m < length d
      → Finds path (h ∷ hs) m best (try_dir (some b) d h m best go)
  by_test d true e i l =
      let (r, e', c) = behind (length d) (some h) (d, e, i, refl) in
      (r, e', Chosen-take path h hs m best r d e (omega arith) c)
  by_test d false e i l = skipped λ dir e' i'. absurd (cc)

  by_length :
      (d : Bytes) (b : Bool)
      → h.dir ≡ some d
      → leb (length d) m ≡ b
      → Finds path
          (h ∷ hs)
          m
          best
          (if b then go m best else try_dir (is_in_dir path d) d h m best go)
  by_length d true e l = skipped λ dir e' i. let same : dir ≡ d = cc in rw same (ground arith)
  by_length d false e l =
      let (b, i) = is_in_dir_total path d (ground arith) in rw i (by_test d b e i (ground arith))

  by_dir :
      (o : Option Bytes)
      → h.dir ≡ o
      → Present o
      → Finds path (h ∷ hs) m best (try_handler path h o m best go)
  by_dir none e p = absurd p
  by_dir (some d) e p = by_length d _ e refl

-- The handlers of a site have their directories. Then the search is defined, and what it returns
-- is one of them whose directory the path is in and than whose directory no other such is longer;
-- it returns none only if the path is in none of the directories, the empty one aside.
pub choose_handler-Chosen :
    (path : Bytes) (hs : List Handler) (m : ℕ) (best : Option Handler)
    → All HasDir hs
    → Held path m best
    → (r : Option Handler) × (choose_handler path hs m best ≡ some r) × Chosen path hs m best r
unfolding choose_handler
choose_handler-Chosen path [] m best p q = (
  best,
  refl,
  record { top = m; holds = q; above = omega arith; longest = tt; origin = inl refl },
)
choose_handler-Chosen path (h ∷ hs) m best p q =
    by_dir path h hs m best (λ m' b. choose_handler path hs m' b)
      (λ m' b held. choose_handler-Chosen path hs m' b p.1 held) q h.dir refl p.0
