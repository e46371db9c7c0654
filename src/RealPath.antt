-- ===== src/RealPath.antt =====
-- src/util.c, `strremove` and `symbolicRealpath`: the path of a request without "/./", "/../" and
-- "//". The C code works in place on one buffer; `tmp` moves past each leading "../" that it keeps.
pub mod Bounds
pub mod Slashes
pub mod Normal
mod Tests
use cfloor.Base.{
  ℕ, zero, suc, ◌+◌, ◌-◌, Bool, true, false, ◌&&◌, Option, none, some, List, [], ◌∷◌, ◌++◌, Bytes,
  codes, length, get_elem?, take, drop, Memory, Alloc, Result, ok, err, ◌>>=◌, ◌>>◌, return, fail,
  allocate, if◌then◌else◌, ltb, ◌==◌,
}

-- `number` is cut to what the string has behind `index`; callers keep `index` within the string.
unfoldable pub strremove : Bytes → ℕ → ℕ → Bytes
strremove s index number =
    let n = if ltb (length s) (number + index) then length s - index else number in
    take index s ++ drop (index + n) s

-- `rindex` as an offset from the start.
unfoldable pub rindex : ℕ → Bytes → Option ℕ
rindex c [] = none
rindex c (x ∷ xs) = elim (rindex c xs) [
  | some i ↦ some (suc i)
  | none ↦ if x == c then some 0 else none
]

-- `kept` is what lies before `tmp`, `text` the string at `tmp`, and `last0` the byte read last.
pub record Scan : Type 0 where
  pub kept : Bytes
  pub text : Bytes
  pub len : ℕ
  pub i : ℕ
  pub last0 : ℕ
  pub last1 : ℕ
  pub last2 : ℕ

-- What ends each round of the loop: the byte moves into `last`, and `i` is counted up.
unfoldable pub advance : Scan → ℕ → Scan
advance s c = record s { i = s.i + 1; last2 = s.last1; last1 = s.last0; last0 = c }

-- "/./"
unfoldable pub drop_dot : Scan → Scan
unfolding strremove
drop_dot s = record s { text = strremove s.text (s.i - 1) 2; len = s.len - 2; i = s.i - 2 }

-- "/../" with no directory before it: "../" is kept and the string starts behind it. There `i`
-- is 3, so that all bytes up to the slash are overwritten.
unfoldable pub keep_up : Scan → Scan
keep_up s = record s {
  kept = s.kept ++ codes "../";
  text = drop 3 s.text;
  len = s.len - 4;
  i = 0;
  last0 = 0;
  last1 = 0;
}

-- "/../" behind the directory whose slash is at `d`.
unfoldable pub drop_dir : Scan → ℕ → Scan
unfolding strremove
drop_dir s d =
    let n = s.i - 3 - d in
    record s { text = strremove s.text d (n + 3); len = s.len - (n + 3); i = s.i - (n + 3) }

unfoldable pub drop_up : Scan → Scan
unfolding rindex keep_up drop_dir
drop_up s = elim (rindex b'/' (take (s.i - 3) s.text)) [ none ↦ keep_up s | some d ↦ drop_dir s d ]

-- At a slash: does a "." or a ".." end here?
unfoldable pub at_slash : Scan → Scan
unfolding drop_dot drop_up
at_slash s =
    if s.last0 == b'.' && s.last1 == b'/'
    then drop_dot s
    else if s.last0 == b'.' && s.last1 == b'.' && s.last2 == b'/'
    then drop_up s
    else s

unfoldable pub scan_byte : Scan → ℕ → Scan
unfolding advance at_slash
scan_byte s c = advance (if c == b'/' then at_slash s else s) c

-- `tmp[i]`; the terminator behind the end.
unfoldable pub byte_at : Bytes → ℕ → ℕ
byte_at [] i = 0
byte_at (c ∷ cs) zero = c
byte_at (c ∷ cs) (suc i) = byte_at cs i

-- The loop over `i < length`. `none`: the fuel ran out.
unfoldable pub scan : ℕ → Scan → Option Scan
unfolding scan_byte byte_at
scan zero s = none
scan (suc fuel) s =
    let rest = scan fuel (scan_byte s (byte_at s.text s.i)) in
    if ltb s.i s.len then rest else some s

-- The second loop: a slash behind a slash is taken out.
unfoldable pub collapse : ℕ → Bytes → Bytes
collapse last [] = []
collapse last (c ∷ cs) = if c == b'/' && last == b'/' then collapse c cs else c ∷ collapse c cs

-- A slash is put in front of a path that does not begin with one.
unfoldable pub rooted : Bytes → Bytes
rooted [] = b'/' ∷ []
rooted (c ∷ cs) = if c == b'/' then c ∷ cs else b'/' ∷ c ∷ cs

-- `length` is that of the argument, also where a slash was put in front.
abbrev pub start : Bytes → Scan
start file = record {
  kept = [];
  text = rooted file;
  len = length file;
  i = 0;
  last0 = 0;
  last1 = 0;
  last2 = 0;
}

abbrev pub joined : Option Scan → Bytes
joined none = []
joined (some s) = collapse 0 (s.kept ++ s.text)

unfoldable pub symbolic_realpath : Bytes → Bytes
unfolding scan collapse rooted
symbolic_realpath file = joined (scan (length file + 1) (start file))
