-- ===== src/RealPath/Normal/Dots.antt =====
-- The loop of `symbolicRealpath` at the slash behind "." and "..".
use cfloor.Base.{
  ℕ, ◌+◌, ◌-◌, ◌≡◌, refl, ap, sym, ◌∙◌, false, none, some, List, [], ◌∷◌, ◌++◌, Bytes, codes,
  length, length-append, take-append, drop-append, take, drop, ltb, arith, has, append_assoc,
}
use cfloor.RealPath.{strremove, rindex, Scan, advance, drop_dot, drop_dir, drop_up, at_slash}
use cfloor.RealPath.Normal.{path_of}
use cfloor.RealPath.Normal.Loop.{At}

strremove-append :
    (u w v : Bytes) (i k : ℕ) → i ≡ length u → k ≡ length w → strremove (u ++ (w ++ v)) i k ≡ u ++ v
unfolding strremove
strremove-append u w v i k e f = rw (uncut, take-append u (w ++ v) i e, dropped)
  where
    uncut : ltb (length (u ++ (w ++ v))) (k + i) ≡ false
    uncut = ground (arith, length-append u (w ++ v), length-append w v)

    dropped : drop (i + k) (u ++ (w ++ v)) ≡ v
    dropped = rw append_assoc at (drop-append (u ++ w) v (i + k) (omega (arith, length-append u w)))

pub dot-At :
    (st : List Bytes) (rest : Bytes) (s : Scan)
    → At st (b'.' ∷ b'/' ∷ rest) s
    → At st rest (advance (at_slash (advance s b'.')) b'/')
unfolding advance drop_dot
dot-At st rest s a = rw dropped (record {
  kept = a.kept;
  text = text;
  len = omega (
    arith,
    a.len,
    ap length a.text,
    ap length text,
    length-append (path_of st) (b'/' ∷ b'.' ∷ b'/' ∷ rest),
    length-append (path_of st) (b'/' ∷ rest),
  );
  i = omega (arith, a.i);
  last0 = refl;
})
  where
    dropped : at_slash (advance s b'.') ≡ drop_dot (advance s b'.')
    dropped = unfold at_slash advance in ground arith

    text : strremove s.text (s.i + 1 - 1) 2 ≡ path_of st ++ (b'/' ∷ rest)
    text =
        ap (λ x. strremove x (s.i + 1 - 1) 2)
          (a.text ∙ sym (append_assoc (path_of st) (b'/' ∷ []) (b'.' ∷ b'/' ∷ rest)))
        ∙ strremove-append (path_of st ++ (b'/' ∷ [])) (b'.' ∷ b'/' ∷ []) rest (s.i + 1 - 1) 2
            (omega (arith, a.i, length-append (path_of st) (b'/' ∷ []))) (omega arith)
        ∙ append_assoc (path_of st) (b'/' ∷ []) rest

rindex_other : (c : ℕ) (t : Bytes) → has c t ≡ false → rindex c t ≡ none
unfolding rindex has
rindex_other c [] h = refl
rindex_other c (x ∷ t) h = ground (arith, rindex_other c t)

rindex-append : (c : ℕ) (u t : Bytes) → has c t ≡ false → rindex c (u ++ (c ∷ t)) ≡ some (length u)
unfolding rindex
rindex-append c [] t h = rw (rindex_other c t h) (ground arith)
rindex-append c (x ∷ u) t h = rw (rindex-append c u t h)

module _ (t : Bytes) (st : List Bytes) (rest : Bytes) (s : Scan) (h : has b'/' t ≡ false)
    (a : At (t ∷ st) (b'.' ∷ b'.' ∷ b'/' ∷ rest) s) where
  abbrev dots : Scan
  dots = advance (advance s b'.') b'.'

  -- The text as the part kept, the directory with "/..", and the slash that ends it.
  up_text : s.text ≡ path_of st ++ ((b'/' ∷ t ++ codes "/..") ++ (b'/' ∷ rest))
  up_text = a.text ∙ simp append_assoc

  up_rindex : rindex b'/' (take (s.i + 1 + 1 - 3) s.text) ≡ some (length (path_of st))
  up_rindex =
      ap (λ x. rindex b'/' (take (s.i + 1 + 1 - 3) x)) a.text
      ∙ ap (rindex b'/') (
          take-append (path_of (t ∷ st)) (codes "/../" ++ rest) (s.i + 1 + 1 - 3)
            (omega (arith, a.i)))
      ∙ rindex-append b'/' (path_of st) t h

  dropped : at_slash dots ≡ drop_dir dots (length (path_of st))
  unfolding at_slash advance drop_up
  dropped = ground (arith, up_rindex)

  up_size : length (path_of (t ∷ st)) ≡ length (path_of st) + 1 + length t
  up_size = omega (arith, length-append (path_of st) (b'/' ∷ t))

  up_removed :
      strremove s.text (length (path_of st)) (s.i + 1 + 1 - 3 - length (path_of st) + 3)
      ≡ path_of st ++ (b'/' ∷ rest)
  up_removed =
      ap (λ x. strremove x (length (path_of st)) (s.i + 1 + 1 - 3 - length (path_of st) + 3))
        up_text
      ∙ strremove-append (path_of st) (b'/' ∷ t ++ codes "/..") (b'/' ∷ rest) _ _ refl
          (omega (arith, a.i, up_size, length-append t (codes "/..")))

  pub up-At : At st rest (advance (at_slash dots) b'/')
  unfolding advance drop_dir
  up-At = rw dropped (record {
    kept = a.kept;
    text = up_removed;
    len = omega (
      arith,
      a.len,
      a.i,
      up_size,
      ap length a.text,
      ap length up_removed,
      length-append (path_of (t ∷ st)) (codes "/../" ++ rest),
      length-append (path_of st) (b'/' ∷ rest),
    );
    i = omega (arith, a.i, up_size);
    last0 = refl;
  })
