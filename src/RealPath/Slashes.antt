-- ===== src/RealPath/Slashes.antt =====
-- The second loop of `symbolicRealpath`.
use cfloor.Base.{
  ℕ, ◌+◌, length, ◌≡◌, ◌≢◌, refl, [], ◌∷◌, ◌++◌, Bytes, ◌==◌, ◌&&◌, arith, Option, none, some,
  false,
}
use cfloor.RealPath.{Scan, collapse, scan, start, joined, symbolic_realpath}

-- No slash stands behind a slash, `last` being the byte in front.
abbrev pub Single : ℕ → Bytes → Type 0
Single last [] = Unit {0}
Single last (c ∷ cs) = ((c == b'/' && last == b'/') ≡ false) × Single c cs

pub collapse-Single : (last : ℕ) (s : Bytes) → Single last (collapse last s)
unfolding collapse
collapse-Single last [] = tt
collapse-Single last (c ∷ cs) = ground (arith, collapse-Single c cs)

Single-append : (last : ℕ) (a b : Bytes) → Single last (a ++ (b'/' ∷ b'/' ∷ b)) → ⊥
Single-append last [] b (p, (q, r)) = ground arith
Single-append last (c ∷ a) b (p, q) = Single-append c a b q

-- On a text with no double slash the loop changes nothing.
pub collapse_whole-Single : (last : ℕ) (s : Bytes) → Single last s → collapse last s ≡ s
unfolding collapse
collapse_whole-Single last [] h = refl
collapse_whole-Single last (c ∷ cs) h = ground (arith, collapse_whole-Single c cs h.1)

joined-Single : (o : Option Scan) → Single 0 (joined o)
joined-Single none = tt
joined-Single (some s) = collapse-Single 0 (s.kept ++ s.text)

-- Whatever the path, the result of `symbolicRealpath` holds no double slash.
pub symbolic_realpath-ne-double :
    (file a b : Bytes) → symbolic_realpath file ≢ a ++ (b'/' ∷ b'/' ∷ b)
unfolding symbolic_realpath
symbolic_realpath-ne-double file a b e =
    Single-append 0 a b (rw e at (joined-Single (scan (length file + 1) (start file))))
