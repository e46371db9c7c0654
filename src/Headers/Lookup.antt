-- ===== src/Headers/Lookup.antt =====
-- What the table of src/headers.c answers after a write.
use cfloor.Base.{
  ℕ, zero, suc, ◌≤◌, ◌+◌, ◌≡◌, refl, inl, inr, true, false, Option, none, some, [], ◌∷◌, ◌++◌,
  Bytes, equal, equal_iff, length, length-append, length-set, set, Memory, ok, Option-cases,
  if◌then◌else◌, arith,
}
use cfloor.Headers.{Header, Headers, find, get, store, modify}

-- No entry has the key.
abbrev pub Lacks : Bytes → Headers → Type 0
Lacks k [] = Unit {0}
Lacks k (h ∷ hs) = (equal h.key k ≡ false) × Lacks k hs

-- No two entries have one key.
abbrev pub Distinct : Headers → Type 0
Distinct [] = Unit {0}
Distinct (h ∷ hs) = Lacks h.key hs × Distinct hs

-- The answers as a function of the key alone, by structural recursion.
unfoldable pub lookup : Headers → Bytes → Option Bytes
lookup [] k = none
lookup (h ∷ hs) k = if equal h.key k then some h.value else lookup hs k

-- `headers_get`, which goes by the index of `headers_find`, answers what this function answers.
pub get-lookup : (hs : Headers) (k : Bytes) → get hs k ≡ lookup hs k
unfolding get lookup
get-lookup [] k = refl
get-lookup (h ∷ hs) k = ground (arith, get-lookup hs k)

lookup-append :
    (hs : Headers) (h : Header) (k j : Bytes)
    → find hs k ≡ none
    → h.key ≡ k
    → lookup (hs ++ (h ∷ [])) j ≡ (if equal k j then some h.value else lookup hs j)
unfolding lookup find
lookup-append [] h k j f e = ground arith
lookup-append (x ∷ hs) h k j f e =
    ground (arith, lookup-append hs h k j, equal_iff x.key j, equal_iff x.key k, equal_iff k j)

lookup-set :
    (hs : Headers) (h : Header) (k j : Bytes) (i : ℕ)
    → find hs k ≡ some i
    → h.key ≡ k
    → lookup (set hs i h) j ≡ (if equal k j then some h.value else lookup hs j)
unfolding lookup find
lookup-set [] h k j i f e = ground arith
lookup-set (x ∷ hs) h k j i f e = elim (Option-cases (find hs k)) [
  | inl n ↦ ground (arith, equal_iff x.key j, equal_iff x.key k, equal_iff k j)
  | inr (m, n) ↦
      ground (arith, lookup-set hs h k j m, equal_iff x.key j, equal_iff x.key k, equal_iff k j)
]

Lacks-append :
    (j : Bytes) (hs : Headers) (h : Header)
    → Lacks j hs
    → equal h.key j ≡ false
    → Lacks j (hs ++ (h ∷ []))
Lacks-append j [] h l e = (e, tt)
Lacks-append j (x ∷ hs) h l e = (l.0, Lacks-append j hs h l.1 e)

Lacks-set :
    (j : Bytes) (hs : Headers) (h : Header) (i : ℕ)
    → Lacks j hs
    → equal h.key j ≡ false
    → Lacks j (set hs i h)
Lacks-set j [] h i l e = tt
Lacks-set j (x ∷ hs) h zero l e = (e, l.1)
Lacks-set j (x ∷ hs) h (suc i) l e = (l.0, Lacks-set j hs h i l.1 e)

pub find-Lacks : (hs : Headers) (k : Bytes) → find hs k ≡ none → Lacks k hs
unfolding find
find-Lacks [] k f = tt
find-Lacks (x ∷ hs) k f = ground (arith, find-Lacks hs k)

pub Lacks-lookup : (hs : Headers) (k : Bytes) → Lacks k hs → lookup hs k ≡ none
unfolding lookup
Lacks-lookup [] k l = refl
Lacks-lookup (x ∷ hs) k l = ground (arith, Lacks-lookup hs k l.1)

pub equal_sym : (a b : Bytes) → equal a b ≡ equal b a
equal_sym a b = ground (arith, equal_iff a b, equal_iff b a)

Distinct-append :
    (hs : Headers) (h : Header) → find hs h.key ≡ none → Distinct hs → Distinct (hs ++ (h ∷ []))
unfolding find
Distinct-append [] h f d = (tt, tt)
Distinct-append (x ∷ hs) h f d =
    ground (arith, equal_sym x.key h.key, Lacks-append x.key hs h d.0, Distinct-append hs h)

Distinct-set :
    (hs : Headers) (h : Header) (i : ℕ)
    → find hs h.key ≡ some i
    → Distinct hs
    → Distinct (set hs i h)
unfolding find
Distinct-set [] h i f d = tt
Distinct-set (x ∷ hs) h i f d = elim (Option-cases (find hs h.key)) [
  | inl n ↦ ground (arith, equal_iff x.key h.key)
  | inr (m, n) ↦ ground (
    arith,
    equal_iff x.key h.key,
    equal_sym x.key h.key,
    Lacks-set x.key hs h m d.0,
    Distinct-set hs h m,
  )
]

-- What `headers_mod` does to the table, in terms of `headers_get` alone.
pub record Writes (hs : Headers) (key value : Bytes) (hs' : Headers) : Type 0 where
  pub answers : (j : Bytes) → get hs' j ≡ (if equal key j then some value else get hs j)
  pub distinct : Distinct hs → Distinct hs'
  pub grows : length hs' ≤ length hs + 1
  pub keeps : length hs ≤ length hs'

append-Writes :
    (hs : Headers) (key value : Bytes)
    → find hs key ≡ none
    → Writes hs key value (hs ++ (record { key = key; value = value } ∷ []))
append-Writes hs key value f = record {
  answers = λ j. simp get-lookup (lookup-append hs _ key j f refl);
  distinct = Distinct-append hs _ f;
  grows = omega (arith, length-append hs (record { key = key; value = value } ∷ []));
  keeps = omega (arith, length-append hs (record { key = key; value = value } ∷ []));
}

set-Writes :
    (hs : Headers) (key value : Bytes) (i : ℕ)
    → find hs key ≡ some i
    → Writes hs key value (set hs i (record { key = key; value = value }))
set-Writes hs key value i f = record {
  answers = λ j. simp get-lookup (lookup-set hs _ key j i f refl);
  distinct = Distinct-set hs _ i f;
  grows = omega (arith, length-set hs i (record { key = key; value = value }));
  keeps = omega (arith, length-set hs i (record { key = key; value = value }));
}

store-Writes :
    (o : Option ℕ) (hs : Headers) (key value : Bytes) (m : Memory) {i : ℕ} {hs' : Headers}
    {m' : Memory}
    → find hs key ≡ o
    → store hs (record { key = key; value = value }) o m ≡ (ok (i, hs'), m')
    → Writes hs key value hs'
unfolding store
store-Writes none hs key value [] f e = ground (arith, append-Writes hs key value f)
store-Writes none hs key value (true ∷ m) f e = ground (arith, append-Writes hs key value f)
store-Writes none hs key value (false ∷ m) f e = ground arith
store-Writes (some i) hs key value m f e = ground (arith, set-Writes hs key value i f)

-- Whatever `headers_mod` returns without an error: the key has the new value, every other key
-- keeps its own, the keys stay distinct, and the table grows by at most one entry.
pub modify-Writes :
    (hs : Headers) (key value : Bytes) (m : Memory) {i : ℕ} {hs' : Headers} {m' : Memory}
    → modify hs key value m ≡ (ok (i, hs'), m')
    → Writes hs key value hs'
unfolding modify
modify-Writes hs key value [] e = store-Writes _ hs key value [] refl e
modify-Writes hs key value (true ∷ []) e = store-Writes _ hs key value [] refl e
modify-Writes hs key value (true ∷ true ∷ m) e = store-Writes _ hs key value m refl e
modify-Writes hs key value (true ∷ false ∷ m) e = ground arith
modify-Writes hs key value (false ∷ m) e = ground arith

-- With memory for the allocations that it makes, `headers_mod` succeeds.
pub modify-total :
    (hs : Headers) (key value : Bytes)
    → (i : ℕ) × (hs' : Headers) × (modify hs key value [] ≡ (ok (i, hs'), []))
unfolding modify store
modify-total hs key value = elim (Option-cases (find hs key)) [
  | inl n ↦ (length hs, hs ++ (record { key = key; value = value } ∷ []), ground arith)
  | inr (i, n) ↦ (i, set hs i (record { key = key; value = value }), ground arith)
]
