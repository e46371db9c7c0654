-- ===== src/Request/Faults.antt =====
-- The buffer that `headers_metadata` of src/headers.c writes the URI to.
use cfloor.Base.{
  ℕ, zero, suc, ◌+◌, ◌≤◌, ◌<◌, ◌≡◌, refl, ap, ◌∙◌, inl, inr, true, false, some, [], ◌∷◌, ◌++◌,
  Bytes, has, length, length-append, ltb, ◌==◌, arith, Bool-cases,
}
use native.Mathlib.Numerals.{add-one}
use cfloor.RealPath.{
  symbolic_realpath, byte_at, Scan, scan, scan_byte, advance, start, rooted, collapse, joined,
}
use cfloor.RealPath.Bounds.{scan-rooted}
use cfloor.RealPath.Slashes.{Single, collapse_whole-Single}
use cfloor.Request.{uri_size}

length-collapse : (l : ℕ) (s : Bytes) → length (collapse l s) ≤ length s
unfolding collapse
length-collapse l [] = omega arith
length-collapse l (c ∷ cs) = ground (arith, length-collapse c cs)

-- For a target that begins with a slash the URI, with its NUL, fits the memory allocated for it.
pub uri_fits :
    (target query : Bytes)
    → byte_at target 0 ≡ b'/'
    → length (symbolic_realpath target ++ (b'?' ∷ query)) + 1 ≤ uri_size target query
unfolding symbolic_realpath uri_size
uri_fits target query h =
    let (t, e, fits, begins) = scan-rooted target in
    let size : length (rooted target) ≡ length target = rooted_size target h in
    rw e (
      omega (
        arith,
        length-append (collapse 0 (t.kept ++ t.text)) (b'?' ∷ query),
        length-collapse 0 (t.kept ++ t.text),
        size,
      ))
  where
    rooted_size : (s : Bytes) → byte_at s 0 ≡ b'/' → length (rooted s) ≡ length s
    rooted_size [] b = absurd (unfold byte_at in omega arith)
    rooted_size (c ∷ s) b = unfold byte_at rooted in ground arith

-- No slash stands behind the first byte.
abbrev OneSlash : Bytes → Type 0
OneSlash s = (i : ℕ) → 1 ≤ i → (byte_at s i == b'/') ≡ false

scan_other :
    (fuel : ℕ) (s : Scan) {t : Scan}
    → (byte_at s.text s.i == b'/') ≡ false
    → ltb s.i s.len ≡ true
    → scan (suc fuel) s ≡ some t
    → scan fuel (advance s (byte_at s.text s.i)) ≡ some t
unfolding scan scan_byte
scan_other fuel s o more e = rw (more, o) at e

scan-OneSlash :
    (fuel : ℕ) (s : Scan) {t : Scan}
    → OneSlash s.text
    → 1 ≤ s.i
    → scan fuel s ≡ some t
    → (t.kept ≡ s.kept) × (t.text ≡ s.text)
unfolding advance
scan-OneSlash zero s o p e = unfold scan in cc
scan-OneSlash (suc fuel) s o p e = elim (Bool-cases (ltb s.i s.len)) [
  | inl more ↦
      scan-OneSlash fuel (advance s (byte_at s.text s.i)) o (omega arith)
        (scan_other fuel s (o s.i p) more e)
  | inr done ↦ unfold scan in ground arith
]

has-byte_at : (s : Bytes) (i : ℕ) → has b'/' s ≡ false → (byte_at s i == b'/') ≡ false
unfolding has byte_at
has-byte_at [] i h = refl
has-byte_at (c ∷ s) zero h = ground arith
has-byte_at (c ∷ s) (suc i) h = ground (arith, has-byte_at s i)

behind_slash : (s : Bytes) → has b'/' s ≡ false → OneSlash (b'/' ∷ s)
unfolding byte_at
behind_slash s h zero p = absurd (omega arith)
behind_slash s h (suc i) p = has-byte_at s i h

Single-has : (l : ℕ) (s : Bytes) → has b'/' s ≡ false → Single l s
unfolding has
Single-has l [] h = tt
Single-has l (c ∷ s) h = ground (arith, Single-has c s)

scan_first :
    (n c : ℕ) (cs : Bytes) {t : Scan}
    → (c == b'/') ≡ false
    → scan (suc n) (start (c ∷ cs)) ≡ some t
    → scan n (advance (start (c ∷ cs)) b'/') ≡ some t
unfolding scan scan_byte rooted
scan_first n c cs h e =
    let more : ltb 0 (suc (length cs)) ≡ true = ground arith in rw h (rw (h, more) at e)

-- A target with no slash in it gets one in front.
symbolic_realpath_name :
    (target : Bytes) → has b'/' target ≡ false → symbolic_realpath target ≡ b'/' ∷ target
unfolding symbolic_realpath
symbolic_realpath_name [] h = refl
symbolic_realpath_name (c ∷ cs) h =
    let (t, e, fits, begins) = scan-rooted (c ∷ cs) in
    let other : (c == b'/') ≡ false = unfold has in ground arith in
    let text : rooted (c ∷ cs) ≡ b'/' ∷ c ∷ cs = unfold rooted in rw other in
    let more : scan (suc (length (c ∷ cs))) (start (c ∷ cs)) ≡ some t = rw add-one at e in
    let (kept', text') =
      scan-OneSlash (length (c ∷ cs)) (advance (start (c ∷ cs)) b'/')
        (rw text (behind_slash (c ∷ cs) h)) (omega arith)
        (scan_first (length (c ∷ cs)) c cs other more) in
    ap joined e
    ∙ ap (λ k. collapse 0 (k ++ t.text)) kept'
    ∙ ap (collapse 0) (text' ∙ text)
    ∙ collapse_whole-Single 0 (b'/' ∷ c ∷ cs) (refl, Single-has b'/' (c ∷ cs) h)

-- For every target without a slash the URI is written one byte past the memory allocated for it:
-- the path has a slash more than the target, and the size is computed from the target.
pub uri_overflow :
    (target query : Bytes)
    → has b'/' target ≡ false
    → uri_size target query < length (symbolic_realpath target ++ (b'?' ∷ query)) + 1
unfolding uri_size
uri_overflow target query h =
    rw (symbolic_realpath_name target h) (omega (arith, length-append target (b'?' ∷ query)))
