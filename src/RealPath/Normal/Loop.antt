-- ===== src/RealPath/Normal/Loop.antt =====
-- The loop of `symbolicRealpath` over one name of a path, up to the slash behind it.
use cfloor.Base.{
  ℕ, zero, suc, ◌+◌, ◌≤◌, ◌<◌, ◌≡◌, ◌≢◌, refl, ap, sym, ◌∙◌, false, some, List, [], ◌∷◌, ◌++◌,
  Bytes, length, length-append, ◌==◌, arith, has, append_assoc, equal,
}
use cfloor.RealPath.{Scan, advance, at_slash, scan_byte, byte_at, scan}
use cfloor.RealPath.Normal.{path_of, IsName}

-- Rounds of the loop.
pub data Reaches : Scan → Scan → Type 0 where
  here : {s : Scan} → Reaches s s
  next : {s t : Scan} → s.i < s.len → Reaches (scan_byte s (byte_at s.text s.i)) t → Reaches s t

pub scan-Reaches :
    (fuel : ℕ) {s t u : Scan} → Reaches s t → t.len ≤ t.i → scan fuel s ≡ some u → u ≡ t
unfolding scan
scan-Reaches zero r h e = cc
scan-Reaches (suc fuel) here h e = ground arith
scan-Reaches (suc fuel) (next m r) h e = scan-Reaches fuel r h (ground arith)

pub Reaches-trans : {s t u : Scan} → Reaches s t → Reaches t u → Reaches s u
Reaches-trans here q = q
Reaches-trans (next m r) q = next m (Reaches-trans r q)

pub byte_at-append : (u v : Bytes) (c i : ℕ) → i ≡ length u → byte_at (u ++ (c ∷ v)) i ≡ c
unfolding byte_at
byte_at-append [] v c zero e = refl
byte_at-append [] v c (suc i) e = absurd (omega arith)
byte_at-append (x ∷ u) v c zero e = absurd (omega arith)
byte_at-append (x ∷ u) v c (suc i) e = byte_at-append u v c i (omega arith)

-- What reading bytes that are no slashes does.
abbrev pub reads : Scan → Bytes → Scan
reads s [] = s
reads s (c ∷ w) = reads (advance s c) w

scan_byte_other : (s : Scan) (c : ℕ) → (c == b'/') ≡ false → scan_byte s c ≡ advance s c
unfolding scan_byte
scan_byte_other s c h = rw h

pub has-cons :
    (d c : ℕ) (w : Bytes) → has d (c ∷ w) ≡ false → ((c == d) ≡ false) × (has d w ≡ false)
unfolding has
has-cons d c w h = ground arith

reads-Reaches :
    (w u v : Bytes) (s : Scan)
    → has b'/' w ≡ false
    → s.text ≡ u ++ (w ++ v)
    → s.i ≡ length u
    → s.len ≡ length s.text
    → Reaches s (reads s w)
unfolding advance
reads-Reaches [] u v s h t i l = here
reads-Reaches (c ∷ w) u v s h t i l =
    let (other, rest) = has-cons b'/' c w h in
    let byte : byte_at s.text s.i ≡ c =
      ap (λ x. byte_at x s.i) t ∙ byte_at-append u (w ++ v) c s.i i in
    next (omega (arith, ap length t, length-append u (c ∷ (w ++ v)))) (
      rw (ap (scan_byte s) byte ∙ scan_byte_other s c other) (
        reads-Reaches w (u ++ (c ∷ [])) v (advance s c) rest (t ∙ rw append_assoc)
          (omega (arith, length-append u (c ∷ []))) l))

-- The loop stands behind the slash that follows the directories of `st`; `rest` is unread.
pub record At (st : List Bytes) (rest : Bytes) (s : Scan) : Type 0 where
  pub kept : s.kept ≡ []
  pub text : s.text ≡ path_of st ++ (b'/' ∷ rest)
  pub len : s.len ≡ length s.text
  pub i : s.i ≡ length (path_of st) + 1
  pub last0 : s.last0 ≡ b'/'

-- The fields that reading a name leaves alone, and where it ends.
pub reads_fields :
    (w : Bytes) (s : Scan)
    → ((reads s w).kept ≡ s.kept)
      × ((reads s w).text ≡ s.text)
      × ((reads s w).len ≡ s.len)
      × ((reads s w).i ≡ s.i + length w)
unfolding advance
reads_fields [] s = (refl, refl, refl, omega arith)
reads_fields (c ∷ w) s =
    let (k, t, l, i) = reads_fields w (advance s c) in (k, t, l, omega (arith, i))

abbrev NoSlash : Scan → Type 0
NoSlash s = (s.last0 ≢ b'/') × (s.last1 ≢ b'/') × (s.last2 ≢ b'/')

reads-NoSlash : (w : Bytes) (s : Scan) → has b'/' w ≡ false → NoSlash s → NoSlash (reads s w)
unfolding advance
reads-NoSlash [] s h n = n
reads-NoSlash (c ∷ w) s h n =
    let (other, rest) = has-cons b'/' c w h in
    reads-NoSlash w (advance s c) rest (ground arith, n.0, n.1)

at_slash-NoSlash : (s : Scan) → NoSlash s → at_slash s ≡ s
unfolding at_slash
at_slash-NoSlash s n = ground arith

-- A name that is neither "." nor ".." leaves no dots that `at_slash` takes for one.
pub at_slash_name :
    (n : Bytes) (s : Scan)
    → IsName n
    → s.last0 ≡ b'/'
    → equal n (b'.' ∷ []) ≡ false
    → equal n (b'.' ∷ b'.' ∷ []) ≡ false
    → at_slash (reads s n) ≡ reads s n
unfolding at_slash advance equal has
at_slash_name [] s n z d u = absurd (n.0 refl)
at_slash_name (a ∷ []) s n z d u = ground arith
at_slash_name (a ∷ b ∷ []) s n z d u = ground arith
at_slash_name (a ∷ b ∷ c ∷ w) s n z d u = at_slash-NoSlash _ (
    reads-NoSlash w (advance (advance (advance s a) b) c) (ground arith)
      (ground arith, ground arith, ground arith))

scan_byte_slash : (s : Scan) → scan_byte s b'/' ≡ advance (at_slash s) b'/'
unfolding scan_byte
scan_byte_slash s = refl

module _ (st : List Bytes) (n rest : Bytes) (s : Scan) (a : At st (n ++ (b'/' ∷ rest)) s) where
  -- The name has been read, and the loop stands at the slash behind it.
  read_text : (reads s n).text ≡ path_of (n ∷ st) ++ (b'/' ∷ rest)
  read_text = (reads_fields n s).1 ∙ a.text ∙ rw append_assoc

  read_i : (reads s n).i ≡ length (path_of (n ∷ st))
  read_i = omega (arith, (reads_fields n s).3, a.i, length-append (path_of st) (b'/' ∷ n))

  read_len : (reads s n).len ≡ length (reads s n).text
  read_len = (reads_fields n s).2 ∙ a.len ∙ sym (ap length (reads_fields n s).1)

  read_before : (reads s n).i < (reads s n).len
  read_before =
      omega (
        arith,
        read_len,
        read_i,
        ap length read_text,
        length-append (path_of (n ∷ st)) (b'/' ∷ rest),
      )

  pub name-Reaches : has b'/' n ≡ false → Reaches s (advance (at_slash (reads s n)) b'/')
  name-Reaches h =
      Reaches-trans
        (reads-Reaches n (path_of st ++ (b'/' ∷ [])) (b'/' ∷ rest) s h (a.text ∙ rw append_assoc)
          (omega (arith, a.i, length-append (path_of st) (b'/' ∷ []))) a.len)
        (next read_before (rw (byte, scan_byte_slash) here))
    where
      byte : byte_at (reads s n).text (reads s n).i ≡ b'/'
      byte =
          ap (λ x. byte_at x (reads s n).i) read_text
          ∙ byte_at-append (path_of (n ∷ st)) rest b'/' (reads s n).i read_i

  pub plain-At :
      at_slash (reads s n) ≡ reads s n → At (n ∷ st) rest (advance (at_slash (reads s n)) b'/')
  unfolding advance
  plain-At e = rw e (record {
    kept = (reads_fields n s).0 ∙ a.kept;
    text = read_text;
    len = read_len;
    i = omega (arith, read_i);
    last0 = refl;
  })
