-- ===== src/Dir/Inside.antt =====
-- What `isInDir` decides.
use cfloor.Base.{
  ℕ, ◌-◌, ◌≡◌, ◌↔◌, ◌⊎◌, inl, inr, refl, ap, ◌∙◌, true, false, some, [], ◌∷◌, ◌++◌, Bytes, has,
  length, length-append, take-append, append-nil, strip_prefix, strip_prefix-append,
  strip_prefix_sound, Option-cases, ◌==◌, arith,
}
use cfloor.Dir.{last_byte, base_of, ends_here, in_base, is_in_dir}

-- The file is the directory itself, or stands below it.
abbrev pub Inside : Bytes → Bytes → Type 0
Inside file base = (file ≡ base) ⊎ ((rest : Bytes) × (file ≡ base ++ (b'/' ∷ rest)))

-- `dir` names the directory `base`, with a slash at its end or without.
abbrev pub Names : Bytes → Bytes → Type 0
Names dir base =
    (dir ≡ base ++ (b'/' ∷ []))
    ⊎ ((c : ℕ) × (cs : Bytes) × (dir ≡ c ∷ cs)
        × (base ≡ c ∷ cs)
        × ((last_byte c cs == b'/') ≡ false))

ends_here-slash :
    (rest : Bytes)
    → has 0 rest ≡ false
    → ends_here rest ≡ true
    → (rest ≡ []) ⊎ ((r : Bytes) × (rest ≡ b'/' ∷ r))
unfolding ends_here has
ends_here-slash [] z h = inl refl
ends_here-slash (c ∷ r) z h = inr (r, ground arith)

has-behind : (d : ℕ) (s t : Bytes) → has d (s ++ t) ≡ false → has d t ≡ false
unfolding has
has-behind d [] t h = h
has-behind d (c ∷ s) t h = ground (arith, has-behind d s t)

in_base_sound :
    (file base : Bytes) → has 0 file ≡ false → in_base file base ≡ true → Inside file base
unfolding in_base
in_base_sound file base z h = elim (Option-cases (strip_prefix base file)) [
  | inl no_prefix ↦ ground arith
  | inr (rest, e) ↦
      let split : file ≡ base ++ rest = strip_prefix_sound base file rest e in
      elim (ends_here-slash rest (has-behind 0 base rest (rw split at z)) (ground arith)) [
        | inl done ↦ inl (split ∙ rw (done, append-nil))
        | inr (r, slash) ↦ inr (r, split ∙ rw slash)
      ]
]

in_base_complete : (base : Bytes) (file : Bytes) → Inside file base → in_base file base ≡ true
unfolding in_base
in_base_complete base file (inl e) =
    let whole : strip_prefix base file ≡ some [] =
      rw e (rw append-nil at (strip_prefix-append base [])) in
    rw (whole, in_base)
in_base_complete base file (inr (rest, e)) =
    let front : strip_prefix base file ≡ some (b'/' ∷ rest) =
      rw e (strip_prefix-append base (b'/' ∷ rest)) in
    rw (front, in_base)

last_byte-append : (c : ℕ) (cs : Bytes) (d : ℕ) → last_byte c (cs ++ (d ∷ [])) ≡ d
last_byte-append c [] d = refl
last_byte-append c (x ∷ cs) d = last_byte-append x cs d

base_of_slash : (base : Bytes) → base_of (base ++ (b'/' ∷ [])) ≡ some base
unfolding base_of
base_of_slash [] = refl
base_of_slash (c ∷ cs) = rw (last_byte-append c cs b'/') (
    ap some (
      take-append (c ∷ cs) (b'/' ∷ []) (length (c ∷ (cs ++ (b'/' ∷ []))) - 1)
        (omega (arith, length-append cs (b'/' ∷ [])))))

base_of-Names : (dir base : Bytes) → Names dir base → base_of dir ≡ some base
base_of-Names dir base (inl e) = rw e (base_of_slash base)
base_of-Names dir base (inr (c, cs, d, b, l)) = rw (d, b) (unfold base_of in rw l)

-- For a path with no NUL in it, `isInDir` says yes exactly if the path is the directory or stands
-- below it, whether the directory's name is given with a slash at its end or without.
pub is_in_dir_iff :
    (file dir base : Bytes)
    → has 0 file ≡ false
    → Names dir base
    → (is_in_dir file dir ≡ some true) ↔ Inside file base
unfolding is_in_dir
is_in_dir_iff file dir base z n =
    let known : is_in_dir file dir ≡ some (in_base file base) =
      rw (base_of-Names dir base n, is_in_dir) in
    (
      λ e. in_base_sound file base z (ground arith),
      λ i. known ∙ ap some (in_base_complete base file i),
    )
