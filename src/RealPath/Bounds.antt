-- ===== src/RealPath/Bounds.antt =====
-- The first loop of `symbolicRealpath` in src/util.c: its end, and the buffer that it works on.
use cfloor.Base.{
  ℕ, zero, suc, ◌+◌, ◌-◌, ◌≤◌, ◌<◌, ◌≡◌, ◌≢◌, refl, ap, inl, inr, none, some, [], ◌∷◌, ◌++◌, Bytes,
  codes, length, length-append, take, drop, Option-cases, Bool-cases, ltb, arith,
}
use cfloor.RealPath.{
  strremove, rindex, Scan, advance, drop_dot, keep_up, drop_dir, drop_up, at_slash, scan_byte,
  byte_at, scan, rooted, start,
}

length-take-le : (n : ℕ) (s : Bytes) → n ≤ length s → length (take n s) ≡ n
length-take-le zero s h = refl
length-take-le (suc n) [] h = absurd (omega arith)
length-take-le (suc n) (c ∷ s) h = ap suc (length-take-le n s (omega arith))

pub length-drop : (n : ℕ) (s : Bytes) → length (drop n s) ≡ length s - n
length-drop zero s = omega arith
length-drop (suc n) [] = omega arith
length-drop (suc n) (c ∷ s) = omega (arith, length-drop n s)

-- `strremove` takes out exactly `number` bytes that stand in the string.
pub length-strremove :
    (s : Bytes) (i n : ℕ) → i + n ≤ length s → length (strremove s i n) ≡ length s - n
unfolding strremove
length-strremove s i n h = ground (
  arith,
  length-append (take i s) (drop (i + n) s),
  length-append (take i s) (drop (i + (length s - i)) s),
  length-take-le i s (omega arith),
  length-drop (i + n) s,
  length-drop (i + (length s - i)) s,
)

byte_at-drop : (n : ℕ) (s : Bytes) → byte_at (drop n s) 0 ≡ byte_at s n
unfolding byte_at
byte_at-drop zero s = refl
byte_at-drop (suc n) [] = refl
byte_at-drop (suc n) (c ∷ s) = byte_at-drop n s

strremove_head :
    (s : Bytes) (i n : ℕ) → 0 < i → i + n ≤ length s → byte_at (strremove s i n) 0 ≡ byte_at s 0
unfolding strremove byte_at
strremove_head [] zero n p h = absurd (omega arith)
strremove_head [] (suc i) n p h = absurd (omega arith)
strremove_head (c ∷ s) zero n p h = absurd (omega arith)
strremove_head (c ∷ s) (suc i) n p h = ground arith

strremove_front : (s : Bytes) (n : ℕ) → n ≤ length s → byte_at (strremove s 0 n) 0 ≡ byte_at s n
unfolding strremove
strremove_front s n h = ground (arith, byte_at-drop n s)

rindex-lt : (c : ℕ) (s : Bytes) (d : ℕ) → rindex c s ≡ some d → d < length s
unfolding rindex
rindex-lt c [] d e = ground arith
rindex-lt c (x ∷ s) d e = elim (Option-cases (rindex c s)) [
  | inl n ↦ ground arith
  | inr (k, n) ↦ ground (arith, rindex-lt c s k n)
]

rindex_missing :
    (c k : ℕ) (s : Bytes) → c ≢ 0 → rindex c (take k s) ≡ none → byte_at s 0 ≡ c → k ≡ 0
unfolding rindex byte_at
rindex_missing c zero s z n e = refl
rindex_missing c (suc k) [] z n e = absurd (z (omega arith))
rindex_missing c (suc k) (x ∷ s) z n e = elim (Option-cases (rindex c (take k s))) [
  | inl m ↦ ground arith
  | inr (d, m) ↦ ground arith
]

-- What holds at the loop's head: `text` begins with a slash and has `len` bytes at least, and a
-- slash in `last` was read at an index that the loop has passed.
pub record Inv (bound : ℕ) (s : Scan) : Type 0 where
  pub begins : byte_at s.text 0 ≡ b'/'
  pub within : s.len ≤ length s.text
  pub fits : length s.kept + length s.text ≤ bound
  pub slash0 : s.last0 ≡ b'/' → 1 ≤ s.i
  pub slash1 : s.last0 ≢ b'/' → s.last1 ≡ b'/' → 2 ≤ s.i
  pub slash2 : s.last0 ≢ b'/' → s.last1 ≢ b'/' → s.last2 ≡ b'/' → 3 ≤ s.i

abbrev pub Smaller : Scan → Scan → Type 0
Smaller t s = t.len - t.i < s.len - s.i

module _ (bound : ℕ) (s : Scan) (v : Inv bound s) (more : s.i < s.len) where
  advance-Inv : (c : ℕ) → Inv bound (advance s c) × Smaller (advance s c) s
  unfolding advance
  advance-Inv c = ground (arith, v.slash0, v.slash1)

  drop_dot-Inv :
      s.last0 ≡ b'.'
      → s.last1 ≡ b'/'
      → Inv bound (advance (drop_dot s) b'/') × Smaller (advance (drop_dot s) b'/') s
  unfolding advance drop_dot
  drop_dot-Inv e f =
      ground
        (arith, v.slash1, length-strremove s.text (s.i - 1) 2, strremove_head s.text (s.i - 1) 2)

  drop_dir-Inv :
      (d : ℕ)
      → byte_at s.text s.i ≡ b'/'
      → d < s.i - 3
      → Inv bound (advance (drop_dir s d) b'/') × Smaller (advance (drop_dir s d) b'/') s
  unfolding advance drop_dir
  drop_dir-Inv zero e h =
      ground (
        arith,
        length-strremove s.text 0 (s.i - 3 - 0 + 3),
        strremove_front s.text (s.i - 3 - 0 + 3),
      )
  drop_dir-Inv (suc d) e h = ground (
    arith,
    length-strremove s.text (suc d) (s.i - 3 - suc d + 3),
    strremove_head s.text (suc d) (s.i - 3 - suc d + 3),
  )

  keep_up-Inv :
      byte_at s.text s.i ≡ b'/'
      → s.i ≡ 3
      → Inv bound (advance (keep_up s) b'/') × Smaller (advance (keep_up s) b'/') s
  unfolding advance keep_up
  keep_up-Inv e h =
      ground
        (arith, byte_at-drop 3 s.text, length-drop 3 s.text, length-append s.kept (codes "../"))

  drop_up-Inv :
      byte_at s.text s.i ≡ b'/'
      → s.last0 ≡ b'.'
      → s.last1 ≡ b'.'
      → s.last2 ≡ b'/'
      → Inv bound (advance (drop_up s) b'/') × Smaller (advance (drop_up s) b'/') s
  unfolding drop_up
  drop_up-Inv e x y z = elim (Option-cases (rindex b'/' (take (s.i - 3) s.text))) [
    | inl n ↦ ground (
      arith,
      rindex_missing b'/' (s.i - 3) s.text (λ (q : b'/' ≡ 0). absurd (omega arith)) n v.begins,
      v.slash2,
      keep_up-Inv e,
    )
    | inr (d, n) ↦ ground (
      arith,
      rindex-lt b'/' (take (s.i - 3) s.text) d n,
      length-take-le (s.i - 3) s.text,
      drop_dir-Inv d e,
    )
  ]

  scan_byte-Inv :
      Inv bound (scan_byte s (byte_at s.text s.i)) × Smaller (scan_byte s (byte_at s.text s.i)) s
  unfolding scan_byte at_slash
  scan_byte-Inv = ground (arith, advance-Inv (byte_at s.text s.i), drop_dot-Inv, drop_up-Inv)

-- With more fuel than bytes are left the loop ends, and the invariant still holds.
pub scan-Inv :
    (fuel bound : ℕ) (s : Scan)
    → Inv bound s
    → s.len - s.i < fuel
    → (t : Scan) × (scan fuel s ≡ some t) × Inv bound t
unfolding scan
scan-Inv zero bound s v h = absurd (omega arith)
scan-Inv (suc fuel) bound s v h = elim (Bool-cases (ltb s.i s.len)) [
  | inl more ↦
      let (w, smaller) = scan_byte-Inv bound s v (ground arith) in
      rw more (scan-Inv fuel bound _ w (omega arith))
  | inr done ↦ (s, rw done, v)
]

start-Inv : (file : Bytes) → Inv (length (rooted file)) (start file)
unfolding rooted byte_at
start-Inv [] = ground arith
start-Inv (c ∷ cs) = ground arith

length-rooted : (file : Bytes) → length (rooted file) ≤ length file + 1
unfolding rooted
length-rooted [] = omega arith
length-rooted (c ∷ cs) = ground arith

-- The loop ends on every path, and what it leaves is no longer than what it began with.
pub scan-rooted :
    (file : Bytes)
    → (t : Scan) × (scan (length file + 1) (start file) ≡ some t)
      × (length (t.kept ++ t.text) ≤ length (rooted file))
      × (byte_at t.text 0 ≡ b'/')
scan-rooted file =
    let (t, e, v) =
      scan-Inv (length file + 1) (length (rooted file)) (start file) (start-Inv file)
        (omega arith) in
    (t, e, omega (arith, length-append t.kept t.text), v.begins)

-- The loop ends on every path. What it leaves is at most one byte longer than the path, so that
-- with its NUL it fits the buffer of `length + 1 + 1` bytes, and the part that `tmp` points to
-- still begins with a slash.
pub scan-start :
    (file : Bytes)
    → (t : Scan) × (scan (length file + 1) (start file) ≡ some t)
      × (length (t.kept ++ t.text) ≤ length file + 1)
      × (byte_at t.text 0 ≡ b'/')
scan-start file =
    let (t, e, fits, begins) = scan-rooted file in (t, e, omega (arith, length-rooted file), begins)
