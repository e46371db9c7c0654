-- ===== src/Linked/Destroyed.antt =====
-- `linked_destroy` of src/linked.c on a list.
use cfloor.Base.{
  ℕ, zero, suc, ◌<◌, ◌≡◌, ◌≢◌, refl, sym, ap, ◌∙◌, true, Option, none, some, List, [], ◌∷◌, length,
  get_elem?, get_elem?-set_self, get_elem?-set_other, set, ◌==◌, arith,
}
use cfloor.Linked.{Link, LinkedList, load}
use cfloor.Linked.Chain.{Entry, IsLink, Chain, IsList, living-IsLink}
use cfloor.Linked.Pushed.{last_address}
use cfloor.Linked.Unlink.{set_prev}
use cfloor.Linked.Unlinked.{other_prev, Chain-set_head, Chain-set_second}
use cfloor.Linked.Destroy.{cleared, begin_with, clear_then, destroy_from, linked_destroy}

-- A link that is off every list: marked so, leading nowhere, and freed if nobody uses it.
abbrev pub IsCleared : List Link → ℕ → Type 0
IsCleared ls a =
    (l : Link) × (get_elem? ls a ≡ some l)
    × (l.unlinked ≡ true)
    × (l.next ≡ none)
    × (l.freed ≡ (l.in_use == 0))

abbrev pub AreCleared : List Link → List Entry → Type 0
AreCleared ls [] = Unit {0}
AreCleared ls (e ∷ es) = IsCleared ls e.0 × AreCleared ls es

abbrev Apart : ℕ → List Entry → Type 0
Apart a [] = Unit {0}
Apart a (e ∷ es) = (a ≢ e.0) × Apart a es

Chain-Apart :
    (ls : List Link) (a : ℕ) (l : Link) (o : Option ℕ) (p : ℕ) (es : List Entry)
    → get_elem? ls a ≡ some l
    → l.prev ≡ none
    → Chain ls o (some p) es
    → Apart a es
Chain-Apart ls a l o p [] g b c = tt
Chain-Apart ls a l o p (x ∷ es) g b (q, k, i, c) =
    (other_prev ls a l none x (some p) k g b (λ e. cc) i, Chain-Apart ls a l k.next x.0 es g b c)

-- What the loop leaves, begun at the first link of a chain.
record Destroyed (st : LinkedList) (e : Entry) (es : List Entry) (st' : LinkedList) : Type 0 where
  first : st'.first ≡ some (last_address e.0 es)
  cleared : AreCleared st'.links (e ∷ es)
  others : (a : ℕ) → a ≢ e.0 → Apart a es → get_elem? st'.links a ≡ get_elem? st.links a

destroy_more :
    (fuel : ℕ) (st : LinkedList) (a b : ℕ) (l k : Link)
    → load st a ≡ some l
    → load st b ≡ some k
    → l.next ≡ some b
    → destroy_from (suc fuel) (some a) st
      ≡ destroy_from fuel
          (some b)
          (record { first = some b; links = set (set st.links b (set_prev none k)) a (cleared l) })
unfolding destroy_from
destroy_more fuel st a b l k f g n =
    let on : Option ℕ → LinkedList → Option LinkedList = λ o st'. destroy_from fuel o st' in
    rw f (ap (λ (o : Option ℕ). clear_then (on o) a l (begin_with st o)) n ∙ rw g)

destroy_last :
    (fuel : ℕ) (st : LinkedList) (a : ℕ) (l : Link)
    → load st a ≡ some l
    → l.next ≡ none
    → destroy_from (suc fuel) (some a) st
      ≡ some (record { first = st.first; links = set st.links a (cleared l) })
unfolding destroy_from
destroy_last fuel st a l f n =
    let on : Option ℕ → LinkedList → Option LinkedList = λ o st'. destroy_from fuel o st' in
    rw f (ap (λ (o : Option ℕ). clear_then (on o) a l (begin_with st o)) n)

clears :
    (ls : List Link) (a : ℕ) (l : Link)
    → get_elem? ls a ≡ some l
    → IsCleared (set ls a (cleared l)) a
clears ls a l g = (cleared l, get_elem?-set_self ls a (cleared l) g, refl, refl, refl)

destroy-Chain :
    (fuel : ℕ) (st : LinkedList) (e : Entry) (l : Link) (es : List Entry)
    → st.first ≡ some e.0
    → IsLink st.links e none l
    → Chain st.links l.next (some e.0) es
    → length es < fuel
    → (st' : LinkedList) × (destroy_from fuel (some e.0) st ≡ some st') × Destroyed st e es st'
unfolding load
destroy-Chain zero st e l es f i c r = absurd (omega arith)
destroy-Chain (suc fuel) st e l [] f i c r = (
  record { first = st.first; links = set st.links e.0 (cleared l) },
  destroy_last fuel st e.0 l (living-IsLink st.links e none l i) c,
  record {
    first = f;
    cleared = (clears st.links e.0 l i.found, tt);
    others = λ a n p. get_elem?-set_other st.links e.0 a (cleared l) (λ q. n (sym q));
  },
)
destroy-Chain (suc fuel) st e l (x ∷ es) f i (p, k, j, c) r =
    let passed = set st.links x.0 (set_prev none k) in
    let behind = set passed e.0 (cleared l) in
    let apart = other_prev st.links e.0 l none x (some e.0) k i.found i.behind (λ q. cc) j in
    let self =
      get_elem?-set_other st.links x.0 e.0 (set_prev none k) (λ q. apart (sym q)) ∙ i.found in
    let second =
      Chain-set_second st.links e.0 x.0 l k (set_prev none k) k.next x.0 es i.found i.behind j.found
        j.behind apart c in
    let rest = Chain-set_head passed e.0 l (cleared l) k.next x.0 es self i.behind second in
    let next : LinkedList = record { first = some x.0; links = behind } in
    let head : IsLink behind x none (set_prev none k) = record {
      found =
          get_elem?-set_other passed e.0 x.0 (cleared l) apart
          ∙ get_elem?-set_self st.links x.0 (set_prev none k) j.found;
      payload = j.payload;
      behind = refl;
      linked = j.linked;
      alive = j.alive;
    } in
    let (st', run, d) =
      destroy-Chain fuel next x (set_prev none k) es refl head rest (omega arith) in
    let others = Chain-Apart passed e.0 l k.next x.0 es self i.behind second in
    let kept = d.others e.0 apart others in
    (
      st',
      destroy_more fuel st e.0 x.0 l k (living-IsLink st.links e none l i)
            (living-IsLink st.links x (some e.0) k j) p
          ∙ run,
      record {
        first = d.first;
        cleared = (
          (cleared l, kept ∙ get_elem?-set_self passed e.0 (cleared l) self, refl, refl, refl),
          d.cleared,
        );
        others = λ a n q.
            d.others a q.0 q.1
            ∙ get_elem?-set_other passed e.0 a (cleared l) (λ w. n (sym w))
            ∙ get_elem?-set_other st.links x.0 a (set_prev none k) (λ w. q.0 (sym w));
      },
    )

-- linked_destroy ends on a list with links, and all of them are then off it and lead nowhere, freed if
-- nobody uses them. The list still begins with its last link.
pub linked_destroy-AreCleared :
    (st : LinkedList) (e : Entry) (es : List Entry)
    → IsList st (e ∷ es)
    → (st' : LinkedList) × (linked_destroy st ≡ some st')
      × AreCleared st'.links (e ∷ es)
      × (st'.first ≡ some (last_address e.0 es))
unfolding linked_destroy
linked_destroy-AreCleared st e es i =
    let (p, l, j, c) = i.chain in
    let (st', run, d) =
      destroy-Chain (suc (length st.links)) st e l es p j c (omega (arith, i.room)) in
    (
      st',
      ap (λ (o : Option ℕ). destroy_from (suc (length st.links)) o st) p ∙ run,
      d.cleared,
      d.first,
    )
