-- ===== src/Files/Order.antt =====
-- `scandirSort` of src/files.c as an order.
use cfloor.Base.{◌≡◌, ◌↔◌, refl, ap, ◌∙◌, [], ◌∷◌, Bytes, arith}
use cfloor.Files.Index.{Dirent, Sign, negative, null, positive, strcmp, scandir_sort}

abbrev pub opposite : Sign → Sign
opposite negative = positive
opposite null = null
opposite positive = negative

strcmp-opposite : (s t : Bytes) → strcmp t s ≡ opposite (strcmp s t)
unfolding strcmp
strcmp-opposite [] [] = refl
strcmp-opposite [] (d ∷ t) = refl
strcmp-opposite (c ∷ s) [] = refl
strcmp-opposite (c ∷ s) (d ∷ t) = ground (arith, strcmp-opposite s t)

strcmp_same : (s t : Bytes) → strcmp s t ≡ null → s ≡ t
unfolding strcmp
strcmp_same [] [] e = refl
strcmp_same [] (d ∷ t) e = cc
strcmp_same (c ∷ s) [] e = cc
strcmp_same (c ∷ s) (d ∷ t) e = ground (arith, strcmp_same s t)

strcmp_refl : (s : Bytes) → strcmp s s ≡ null
unfolding strcmp
strcmp_refl [] = refl
strcmp_refl (c ∷ s) = ground (arith, strcmp_refl s)

strcmp_trans :
    (s t u : Bytes) → strcmp s t ≡ negative → strcmp t u ≡ negative → strcmp s u ≡ negative
unfolding strcmp
strcmp_trans [] [] u e f = cc
strcmp_trans [] (d ∷ t) [] e f = cc
strcmp_trans [] (d ∷ t) (x ∷ u) e f = refl
strcmp_trans (c ∷ s) [] u e f = cc
strcmp_trans (c ∷ s) (d ∷ t) [] e f = cc
strcmp_trans (c ∷ s) (d ∷ t) (x ∷ u) e f = ground (arith, strcmp_trans s t u)

scandir_sort-opposite : (a b : Dirent) → scandir_sort b a ≡ opposite (scandir_sort a b)
unfolding scandir_sort
scandir_sort-opposite a b = ground (arith, strcmp-opposite a.name b.name)

pub scandir_sort_same : (a b : Dirent) → (scandir_sort a b ≡ null) ↔ (a ≡ b)
unfolding scandir_sort
scandir_sort_same a b = (same a b, λ e. rw e (itself b))
  where
    itself : (c : Dirent) → scandir_sort c c ≡ null
    itself c = ground (arith, strcmp_refl c.name)

    same : (c d : Dirent) → scandir_sort c d ≡ null → c ≡ d
    same c d e = ground (arith, strcmp_same c.name d.name)

sort_trans :
    (a b c : Dirent)
    → scandir_sort a b ≡ negative
    → scandir_sort b c ≡ negative
    → scandir_sort a c ≡ negative
unfolding scandir_sort
sort_trans a b c e f = ground (arith, strcmp_trans a.name b.name c.name)

-- The comparison is a strict order: an entry before one that is before a third is before that one too,
-- and the third compares as behind the first.
pub scandir_sort_trans :
    (a b c : Dirent)
    → scandir_sort a b ≡ negative
    → scandir_sort b c ≡ negative
    → (scandir_sort a c ≡ negative) × (scandir_sort c a ≡ positive)
scandir_sort_trans a b c e f =
    let before = sort_trans a b c e f in (before, scandir_sort-opposite a c ∙ ap opposite before)
