-- ===== src/RealPath/Normal/Whole.antt =====
-- The loops of `symbolicRealpath` over a whole path.
use cfloor.Base.{
  ℕ, ◌≡◌, inl, inr, some, List, [], ◌∷◌, ◌++◌, Bytes, Option-cases, Bool-cases, arith, equal,
  equal_iff,
}
use cfloor.RealPath.{Scan, advance, at_slash}
use cfloor.RealPath.Normal.{names, enter, resolve, IsName, AllNames}
use cfloor.RealPath.Normal.Loop.{
  Reaches, here, Reaches-trans, reads, At, name-Reaches, plain-At, at_slash_name,
}
use cfloor.RealPath.Normal.Dots.{dot-At, up-At}

up_enters :
    (st : List Bytes) {st' : List Bytes} (rest : Bytes) (s : Scan)
    → AllNames st
    → At st (b'.' ∷ b'.' ∷ b'/' ∷ rest) s
    → enter st (b'.' ∷ b'.' ∷ []) ≡ some st'
    → At st' rest (advance (at_slash (reads s (b'.' ∷ b'.' ∷ []))) b'/') × AllNames st'
unfolding enter equal
up_enters [] rest s v a e = ground arith
up_enters (t ∷ st) rest s v a e = ground (arith, up-At t st rest s v.0.1 a)

-- The loop does with a name what `enter` does.
enter-At :
    (n : Bytes) (st : List Bytes) {st' : List Bytes} (rest : Bytes) (s : Scan)
    → IsName n
    → AllNames st
    → At st (n ++ (b'/' ∷ rest)) s
    → enter st n ≡ some st'
    → At st' rest (advance (at_slash (reads s n)) b'/') × AllNames st'
enter-At n st {st'} rest s w v a e = elim (Bool-cases (equal n (b'.' ∷ []))) [
  | inl dot ↦
      let q : n ≡ b'.' ∷ [] = (equal_iff n (b'.' ∷ [])).0 dot in
      let kept : st ≡ st' = unfold enter in ground arith in
      rw (q, ← kept) (dot-At st rest s (rw q at a), v)
  | inr other ↦ elim (Bool-cases (equal n (b'.' ∷ b'.' ∷ []))) [
    | inl up ↦
        let q : n ≡ b'.' ∷ b'.' ∷ [] = (equal_iff n (b'.' ∷ b'.' ∷ [])).0 up in
        rw q (up_enters st rest s v (rw q at a) (rw q at e))
    | inr plain ↦
        let kept : n ∷ st ≡ st' = unfold enter in ground arith in
        rw (← kept) (plain-At st n rest s a (at_slash_name n s w a.last0 other plain), (w, v))
  ]
]

run :
    (ns st : List Bytes) {st' : List Bytes} (s : Scan)
    → AllNames ns
    → AllNames st
    → At st (names ns) s
    → resolve st ns ≡ some st'
    → (t : Scan) × Reaches s t × At st' [] t × AllNames st'
unfolding resolve
run [] st {st'} s w v a e =
    let kept : st ≡ st' = ground arith in (s, here, rw (← kept) a, rw (← kept) v)
run (n ∷ ns) st s w v a e = elim (Option-cases (enter st n)) [
  | inl climbs ↦ absurd (ground arith)
  | inr (st₁, enters) ↦
      let (a', v') = enter-At n st (names ns) s w.0 v a enters in
      let (t, r, z, z') = run ns st₁ _ w.1 v' a' (rw (enters, resolve) at e) in
      (t, Reaches-trans (name-Reaches st n (names ns) s a w.0.1) r, z, z')
]

last_of : ℕ → Bytes → ℕ
last_of l [] = l
last_of l (c ∷ cs) = last_of c cs
