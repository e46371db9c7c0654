-- ===== src/Linked/Dangling.antt =====
-- A user of a link of src/linked.c while that link and the one behind it are unlinked.
use cfloor.Base.{ℕ, suc, true, false, Option, none, some, List, set}
use cfloor.Linked.{Link}

-- The only user of the second link is the list; `n + 1` users hold the first one.
abbrev pub first_of_two : ℕ → ℕ → ℕ → Link
first_of_two payload n b = record {
  payload = payload;
  in_use = suc n;
  next = some b;
  prev = none;
  unlinked = false;
  freed = false;
}

abbrev pub second_of_two : ℕ → Option ℕ → Link
second_of_two payload prev = record {
  payload = payload;
  in_use = 0;
  next = none;
  prev = prev;
  unlinked = false;
  freed = false;
}

abbrev off_a : ℕ → ℕ → ℕ → Link
off_a x n b = record (first_of_two x n b) { unlinked = true }

abbrev off_b : ℕ → Link
off_b y = record (second_of_two y none) { unlinked = true; freed = true }

abbrev links_first : List Link → ℕ → ℕ → ℕ → ℕ → ℕ → List Link
links_first ls a b x y n = set (set ls b (second_of_two y none)) a (off_a x n b)
