-- ===== src/Linked/Distinct.antt =====
-- The links of a list of src/linked.c are all different.
use cfloor.Base.{
  ℕ, suc, ◌<◌, ◌≡◌, ◌≢◌, refl, sym, ap, ◌∙◌, Option, some, List, [], ◌∷◌, ◌++◌, length, get_elem?,
  get_elem?-set_other, set, arith,
}
use cfloor.Linked.{Link}
use cfloor.Linked.Chain.{Entry, Chain, same_link}

-- No entry has the address.
abbrev pub IsApart : ℕ → List Entry → Type 0
IsApart a [] = Unit {0}
IsApart a (e ∷ es) = (a ≢ e.0) × IsApart a es

pub IsApart-append : (a : ℕ) (ps es : List Entry) → IsApart a (ps ++ es) → IsApart a es
IsApart-append a [] es p = p
IsApart-append a (x ∷ ps) es p = IsApart-append a ps es p.1

-- Where a chain begins says how long it is.
one_length :
    (ls : List Link) (o o' p p' : Option ℕ) (es es' : List Entry)
    → o ≡ o'
    → Chain ls o p es
    → Chain ls o' p' es'
    → length es ≡ length es'
one_length ls o o' p p' [] [] s c c' = refl
one_length ls o o' p p' [] (y ∷ es') s c (q, k, i, d) = cc
one_length ls o o' p p' (x ∷ es) [] s (q, k, i, d) c = cc
one_length ls o o' p p' (x ∷ es) (y ∷ es') s (q, k, i, c) (r, m, j, d) =
    let here : x.0 ≡ y.0 = cc in
    let one : m ≡ k = same_link (get_elem? ls x.0) k m i.found (ap (get_elem? ls) here ∙ j.found) in
    ap suc (
      one_length ls k.next m.next (some x.0) (some y.0) es es' (ap (λ (z : Link). z.next) (sym one))
        c d)

shorter-IsApart :
    (ls : List Link) (a : ℕ) (o p p' : Option ℕ) (full es : List Entry)
    → Chain ls (some a) p full
    → Chain ls o p' es
    → length es < length full
    → IsApart a es
shorter-IsApart ls a o p p' full [] c d s = tt
shorter-IsApart ls a o p p' full (x ∷ es) c (q, k, i, d) s = (
  λ same.
      let l = one_length ls (some a) o p p' full (x ∷ es) (cc) c (q, k, i, d) in
      absurd (omega arith),
  shorter-IsApart ls a k.next p (some x.0) full es c d (omega arith),
)

pub Chain-IsApart :
    (ls : List Link) (o p : Option ℕ) (e : Entry) (es : List Entry)
    → Chain ls o p (e ∷ es)
    → IsApart e.0 es
Chain-IsApart ls o p e es (q, k, i, c) =
    shorter-IsApart ls e.0 k.next p (some e.0) (e ∷ es) es (refl, k, i, c) c (omega arith)

-- A chain stays where a link that it does not have is written.
pub Chain-set :
    (ls : List Link) (a : ℕ) (z : Link) (o p : Option ℕ) (es : List Entry)
    → IsApart a es
    → Chain ls o p es
    → Chain (set ls a z) o p es
Chain-set ls a z o p [] n c = c
Chain-set ls a z o p (x ∷ es) n (q, k, i, c) = (
  q,
  k,
  record {
    found = get_elem?-set_other ls a x.0 z n.0 ∙ i.found;
    payload = i.payload;
    behind = i.behind;
    linked = i.linked;
    alive = i.alive;
  },
  Chain-set ls a z k.next (some x.0) es n.1 c,
)

-- Written behind its first links, a chain has these as they were.
pub Chain-behind :
    (ls ls' : List Link) (q : Entry) (old new : List Entry)
    → ((a : ℕ) → IsApart a (q ∷ old) → get_elem? ls' a ≡ get_elem? ls a)
    → ((o p : Option ℕ) → Chain ls o p (q ∷ old) → Chain ls' o p (q ∷ new))
    → (o p : Option ℕ) (ps : List Entry) → Chain ls o p (ps ++ (q ∷ old))
    → Chain ls' o p (ps ++ (q ∷ new))
Chain-behind ls ls' q old new keeps tail o p [] c = tail o p c
Chain-behind ls ls' q old new keeps tail o p (x ∷ ps) (r, k, i, c) =
    let apart = Chain-IsApart ls o p x (ps ++ (q ∷ old)) (r, k, i, c) in
    (
      r,
      k,
      record {
        found = keeps x.0 (IsApart-append x.0 ps (q ∷ old) apart) ∙ i.found;
        payload = i.payload;
        behind = i.behind;
        linked = i.linked;
        alive = i.alive;
      },
      Chain-behind ls ls' q old new keeps tail k.next (some x.0) ps c,
    )

-- The chain from some link on.
pub rest_of :
    (ls : List Link) (o p : Option ℕ) (ps es : List Entry)
    → Chain ls o p (ps ++ es)
    → (o' p' : Option ℕ) × Chain ls o' p' es
rest_of ls o p [] es c = (o, p, c)
rest_of ls o p (x ∷ ps) es (r, k, i, c) = rest_of ls k.next (some x.0) ps es c
