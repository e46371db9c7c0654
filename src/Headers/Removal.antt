-- ===== src/Headers/Removal.antt =====
-- `headers_remove` of src/headers.c: what it takes out of the table.
use cfloor.Base.{
  ℕ, zero, suc, ◌+◌, ◌≡◌, ◌⊎◌, refl, inl, inr, Option, none, some, [], ◌∷◌, Bytes, equal, equal_iff,
  length, Option-cases, if◌then◌else◌, arith,
}
use cfloor.Headers.{Headers, find, get, shift_down, remove}
use cfloor.Headers.Lookup.{get-lookup, Lacks, Distinct, lookup, find-Lacks, Lacks-lookup}

lookup-shift_down :
    (hs : Headers) (k j : Bytes) (i : ℕ)
    → find hs k ≡ some i
    → Distinct hs
    → lookup (shift_down hs i) j ≡ (if equal k j then none else lookup hs j)
unfolding lookup find shift_down
lookup-shift_down [] k j i f d = ground arith
lookup-shift_down (x ∷ hs) k j i f d = elim (Option-cases (find hs k)) [
  | inl n ↦
      ground (arith, equal_iff x.key j, equal_iff x.key k, equal_iff k j, Lacks-lookup hs x.key d.0)
  | inr (m, n) ↦ ground (
    arith,
    lookup-shift_down hs k j m,
    equal_iff x.key j,
    equal_iff x.key k,
    equal_iff k j,
    Lacks-lookup hs x.key d.0,
  )
]

lookup-find : (hs : Headers) (k : Bytes) → find hs k ≡ none → lookup hs k ≡ none
lookup-find hs k f = Lacks-lookup hs k (find-Lacks hs k f)

Lacks-shift_down : (j : Bytes) (hs : Headers) (i : ℕ) → Lacks j hs → Lacks j (shift_down hs i)
unfolding shift_down
Lacks-shift_down j [] i l = tt
Lacks-shift_down j (x ∷ hs) zero l = l.1
Lacks-shift_down j (x ∷ hs) (suc i) l = (l.0, Lacks-shift_down j hs i l.1)

Distinct-shift_down : (hs : Headers) (i : ℕ) → Distinct hs → Distinct (shift_down hs i)
unfolding shift_down
Distinct-shift_down [] i d = tt
Distinct-shift_down (x ∷ hs) zero d = d.1
Distinct-shift_down (x ∷ hs) (suc i) d =
    (Lacks-shift_down x.key hs i d.0, Distinct-shift_down hs i d.1)

length-shift_down :
    (hs : Headers) (k : Bytes) (i : ℕ)
    → find hs k ≡ some i
    → length (shift_down hs i) + 1 ≡ length hs
unfolding shift_down find
length-shift_down [] k i f = ground arith
length-shift_down (x ∷ hs) k zero f = omega arith
length-shift_down (x ∷ hs) k (suc i) f = ground (arith, length-shift_down hs k i)

-- What `headers_remove` does, in terms of `headers_get` and the number of entries.
pub record Removes (hs : Headers) (key : Bytes) (r : Option ℕ × Headers) : Type 0 where
  pub answers : (j : Bytes) → get r.1 j ≡ (if equal key j then none else get hs j)
  pub distinct : Distinct r.1
  pub returns :
      ((r.0 ≡ none) × (get hs key ≡ none) × (r.1 ≡ hs))
      ⊎ ((r.0 ≡ some (length r.1)) × (length r.1 + 1 ≡ length hs))

remove_missing :
    (hs : Headers) (key : Bytes) → find hs key ≡ none → Distinct hs → Removes hs key (none, hs)
remove_missing hs key f d = record {
  answers = λ j. simp get-lookup (ground (arith, equal_iff key j, lookup-find hs key f));
  distinct = d;
  returns = inl (refl, simp get-lookup (lookup-find hs key f), refl);
}

remove_found :
    (hs : Headers) (key : Bytes) (i : ℕ)
    → find hs key ≡ some i
    → Distinct hs
    → Removes hs key (some (length (shift_down hs i)), shift_down hs i)
remove_found hs key i f d = record {
  answers = λ j. simp get-lookup (lookup-shift_down hs key j i f d);
  distinct = Distinct-shift_down hs i d;
  returns = inr (refl, length-shift_down hs key i f);
}

-- In a table with distinct keys `headers_remove` takes out the entry with the key and no other:
-- the key has no value afterwards, every other key keeps its own, and the keys stay distinct. The
-- result is -1 with the table unchanged if the key had no value, and the new number of entries,
-- one less than before, otherwise.
pub remove-Removes : (hs : Headers) (key : Bytes) → Distinct hs → Removes hs key (remove hs key)
unfolding remove
remove-Removes hs key d = elim (Option-cases (find hs key)) [
  | inl f ↦ rw (f, remove) (remove_missing hs key f d)
  | inr (i, f) ↦ rw (f, remove) (remove_found hs key i f d)
]
