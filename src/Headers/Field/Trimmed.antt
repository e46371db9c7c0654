-- ===== src/Headers/Field/Trimmed.antt =====
-- `headers_parse` of src/headers.c on a well-formed line.
use cfloor.Base.{
  ℕ, zero, suc, ◌+◌, ◌<◌, ◌≤◌, ◌≡◌, refl, ap, ◌∙◌, append_assoc, length-append, take-append, true,
  false, some, [], ◌∷◌, ◌++◌, Bytes, c_string, has, c_string-has, has-append, length, drop, Memory,
  ◌==◌, arith,
}
use cfloor.Headers.{Headers, modify}
use cfloor.Headers.Field.{
  split_colon, first_other, skip_leading, is_space_at, cut_trailing, trim, parse,
}

abbrev pub spaces : ℕ → Bytes
spaces zero = []
spaces (suc n) = b' ' ∷ spaces n

-- A text that neither begins nor ends with a space, and is not empty.
pub record IsTrimmed (v : Bytes) : Type 0 where
  pub first : first_other v ≡ some 0
  pub front : Bytes
  pub last : ℕ
  pub splits : v ≡ front ++ (last ∷ [])
  pub last_other : (last == b' ') ≡ false

first_other-spaces :
    (n : ℕ) (v : Bytes) → first_other v ≡ some 0 → first_other (spaces n ++ v) ≡ some n
unfolding first_other
first_other-spaces zero v h = h
first_other-spaces (suc n) v h = rw (first_other-spaces n v h)

first_other-append : (v w : Bytes) → first_other v ≡ some 0 → first_other (v ++ w) ≡ some 0
unfolding first_other
first_other-append [] w h = ground arith
first_other-append (c ∷ v) w h = ground arith

drop-spaces : (n : ℕ) (v : Bytes) → drop n (spaces n ++ v) ≡ v
drop-spaces zero v = refl
drop-spaces (suc n) v = drop-spaces n v

is_space_at-spaces : (m k : ℕ) → k < m → is_space_at (spaces m) k ≡ true
is_space_at-spaces zero k h = absurd (omega arith)
is_space_at-spaces (suc m) zero h = refl
is_space_at-spaces (suc m) (suc k) h = is_space_at-spaces m k (omega arith)

-- A read behind a prefix reads what follows it.
is_space_at-append :
    (v w : Bytes) (k i : ℕ) → i ≡ length v + k → is_space_at (v ++ w) i ≡ is_space_at w k
is_space_at-append [] w k i e = let e' : i ≡ k = omega arith in rw e'
is_space_at-append (c ∷ v) w k zero e = absurd (omega arith)
is_space_at-append (c ∷ v) w k (suc i) e = is_space_at-append v w k i (omega arith)

length-spaces : (m : ℕ) → length (spaces m) ≡ m
length-spaces zero = refl
length-spaces (suc m) = ap suc (length-spaces m)

-- The loop steps back over the spaces, and stops at the last other byte.
cut_trailing-spaces :
    (u : Bytes) (c : ℕ) (m k i : ℕ)
    → (c == b' ') ≡ false
    → k ≤ m
    → i ≡ suc (length u) + k
    → cut_trailing i (u ++ (c ∷ spaces m)) ≡ u ++ (c ∷ [])
unfolding cut_trailing
cut_trailing-spaces u c m zero zero n h e = absurd (omega arith)
cut_trailing-spaces u c m zero (suc i) n h e =
    let stop : is_space_at (u ++ (c ∷ spaces m)) i ≡ false =
      is_space_at-append u (c ∷ spaces m) 0 i (omega arith) ∙ n in
    rw stop (
      rw append_assoc at
        (take-append (u ++ (c ∷ [])) (spaces m) (suc i) (omega (arith, length-append u (c ∷ [])))))
cut_trailing-spaces u c m (suc k) zero n h e = absurd (omega arith)
cut_trailing-spaces u c m (suc k) (suc i) n h e =
    let back : is_space_at (u ++ (c ∷ spaces m)) i ≡ true =
      is_space_at-append u (c ∷ spaces m) (suc k) i (omega arith) ∙ is_space_at-spaces m k h in
    rw back (cut_trailing-spaces u c m k i n (omega arith) (omega arith))

skip_leading-spaces :
    (n : ℕ) (v : Bytes) → first_other v ≡ some 0 → skip_leading (spaces n ++ v) ≡ v
unfolding skip_leading
skip_leading-spaces n v h = rw (first_other-spaces n v h, skip_leading) (drop-spaces n v)

-- Exactly the spaces around the text go.
trim-spaces : (v : Bytes) (n m : ℕ) → IsTrimmed v → trim (spaces n ++ (v ++ spaces m)) ≡ v
unfolding trim
trim-spaces v n m t =
    rw
      (
        skip_leading-spaces n (v ++ spaces m) (first_other-append v (spaces m) t.first),
        t.splits,
        append_assoc,
      )
      (cut_trailing-spaces t.front t.last m m _ t.last_other (omega arith)
        (omega (arith, length-append t.front (t.last ∷ spaces m), length-spaces m)))

pub has-spaces : (d : ℕ) (n : ℕ) → (d == b' ') ≡ false → has d (spaces n) ≡ false
unfolding has
has-spaces d zero h = refl
has-spaces d (suc n) h = ground (arith, has-spaces d n)

pub split_colon-append :
    (key rest : Bytes)
    → has b':' key ≡ false
    → split_colon (key ++ (b':' ∷ rest)) ≡ some (key, rest)
unfolding split_colon has
split_colon-append [] rest h = refl
split_colon-append (c ∷ key) rest h = ground (arith, split_colon-append key rest)

parse-split :
    (hs : Headers) (line key value : Bytes) (mem : Memory)
    → split_colon line ≡ some (key, value)
    → parse hs line (true ∷ true ∷ true ∷ mem)
      ≡ modify hs (c_string key) (trim (c_string value)) mem
unfolding parse
parse-split hs [] key value mem e = ground arith
parse-split hs (c ∷ cs) key value mem e = rw (e, parse)

-- Where a line has a colon, the allocations that are left to succeed are as good as granted.
pub parse_ample :
    (hs : Headers) (line key value : Bytes)
    → split_colon line ≡ some (key, value)
    → parse hs line [] ≡ parse hs line (true ∷ true ∷ true ∷ [])
unfolding parse
parse_ample hs [] key value e = absurd (ground arith)
parse_ample hs (c ∷ cs) key value e = rw (e, parse)

-- A line is a key, a colon and a value with any spaces around it. If key and value hold no NUL,
-- the key no colon, and the value neither is empty nor begins or ends with a space, then
-- `headers_parse`, given memory for its own three allocations, does what `headers_mod` does with
-- the key and the value alone.
pub parse-modify :
    (hs : Headers) (key value : Bytes) (n m : ℕ) (mem : Memory)
    → has b':' key ≡ false
    → has 0 key ≡ false
    → has 0 value ≡ false
    → IsTrimmed value
    → parse hs (key ++ (b':' ∷ (spaces n ++ (value ++ spaces m)))) (true ∷ true ∷ true ∷ mem)
      ≡ modify hs key value mem
unfolding parse
parse-modify hs key value n m mem colon nul nul' t =
    let rest = spaces n ++ (value ++ spaces m) in
    let clean =
      has-append 0 _ _ (has-spaces 0 n refl) (has-append 0 _ _ nul' (has-spaces 0 m refl)) in
    parse-split hs (key ++ (b':' ∷ rest)) key rest mem (split_colon-append key rest colon)
    ∙ rw (c_string-has key nul, c_string-has _ clean, trim-spaces value n m t)
