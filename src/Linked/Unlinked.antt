-- ===== src/Linked/Unlinked.antt =====
-- `linked_unlink` of src/linked.c on the first link of a list.
use cfloor.Base.{
  ℕ, suc, ◌≤◌, ◌≡◌, ◌≢◌, refl, sym, ap, ◌∙◌, true, Option, none, some, List, [], ◌∷◌, length,
  length-set, get_elem?, get_elem?-set_self, get_elem?-set_other, set, ==_refl, arith,
}
use cfloor.Linked.{Link, LinkedList, load, store}
use cfloor.Linked.Unlink.{
  set_prev, taken_off, pass_prev, pass_next, then_pass, take_off, points_to, before_points,
  unlink_at, linked_unlink,
}
use cfloor.Linked.Chain.{Entry, IsLink, Chain, IsList, living-IsLink}

-- A link of a chain whose address is not `a` stays when the link at `a` is written.
IsLink-set :
    (ls : List Link) (a : ℕ) (z : Link) (e : Entry) (prev : Option ℕ) (l : Link)
    → a ≢ e.0
    → IsLink ls e prev l
    → IsLink (set ls a z) e prev l
IsLink-set ls a z e prev l n i = record {
  found = get_elem?-set_other ls a e.0 z n ∙ i.found;
  payload = i.payload;
  behind = i.behind;
  linked = i.linked;
  alive = i.alive;
}

-- A link with another link before it is not the one at `a`.
pub other_prev :
    (ls : List Link) (a : ℕ) (l : Link) (q : Option ℕ) (e : Entry) (prev : Option ℕ) (k : Link)
    → get_elem? ls a ≡ some l
    → l.prev ≡ q
    → q ≢ prev
    → IsLink ls e prev k
    → a ≢ e.0
other_prev ls a l q e prev k g b n i same =
    let one : l ≡ k = ground (arith, i.found) in
    n (sym b ∙ ap (λ (z : Link). z.prev) one ∙ i.behind)

-- The first link of the list is not written anywhere behind it.
pub Chain-set_head :
    (ls : List Link) (a : ℕ) (l z : Link) (o : Option ℕ) (p : ℕ) (es : List Entry)
    → get_elem? ls a ≡ some l
    → l.prev ≡ none
    → Chain ls o (some p) es
    → Chain (set ls a z) o (some p) es
Chain-set_head ls a l z o p [] g b c = c
Chain-set_head ls a l z o p (x ∷ es) g b (q, k, i, c) =
    let apart = other_prev ls a l none x (some p) k g b (λ e. cc) i in
    (q, k, IsLink-set ls a z x (some p) k apart i, Chain-set_head ls a l z k.next x.0 es g b c)

-- Nor is the second.
pub Chain-set_second :
    (ls : List Link) (a b : ℕ) (l k z : Link) (o : Option ℕ) (p : ℕ) (es : List Entry)
    → get_elem? ls a ≡ some l
    → l.prev ≡ none
    → get_elem? ls b ≡ some k
    → k.prev ≡ some a
    → a ≢ p
    → Chain ls o (some p) es
    → Chain (set ls b z) o (some p) es
Chain-set_second ls a b l k z o p [] g h g' h' n c = c
Chain-set_second ls a b l k z o p (x ∷ es) g h g' h' n (q, m, i, c) =
    let apart = other_prev ls b k (some a) x (some p) m g' h' (λ e. n (cc)) i in
    let first = other_prev ls a l none x (some p) m g h (λ e. cc) i in
    (
      q,
      m,
      IsLink-set ls b z x (some p) m apart i,
      Chain-set_second ls a b l k z m.next x.0 es g h g' h' first c,
    )

-- `take_off` with the two pointers that the link has.
abbrev pub take_off_between : LinkedList → ℕ → Link → Option ℕ → Option ℕ → Option LinkedList
take_off_between st a l prev next =
    then_pass (pass_prev st prev next) (λ st'. pass_next (store st' a (taken_off l)) prev next)

take_off_by :
    (st : LinkedList) (a : ℕ) (l : Link) (next : Option ℕ)
    → l.prev ≡ none
    → l.next ≡ next
    → take_off st a l ≡ take_off_between st a l none next
unfolding take_off
take_off_by st a l next p n =
    ap (λ (o : Option ℕ). take_off_between st a l o l.next) p
    ∙ ap (λ (o : Option ℕ). take_off_between st a l none o) n

unlink_by :
    (st st' : LinkedList) (e : Entry) (l : Link)
    → st.first ≡ some e.0
    → IsLink st.links e none l
    → take_off st e.0 l ≡ some st'
    → linked_unlink st e.0 ≡ some (true, st')
unfolding linked_unlink load
unlink_by st st' e l f i t =
    let points : before_points st l.prev e.0 ≡ some true =
      ap (λ (o : Option ℕ). before_points st o e.0) i.behind
      ∙ ap (λ (o : Option ℕ). some (points_to o e.0)) f
      ∙ ap some (==_refl e.0) in
    rw (living-IsLink st.links e none l i) (ap (unlink_at st e.0 l) points ∙ simp (i.linked, t))

unlinked-Chain :
    (st : LinkedList) (e : Entry) (es : List Entry) (l : Link)
    → st.first ≡ some e.0
    → IsLink st.links e none l
    → Chain st.links l.next (some e.0) es
    → suc (length es) ≤ length st.links
    → (st' : LinkedList) × (take_off st e.0 l ≡ some st') × IsList st' es
unfolding load
unlinked-Chain st e [] l f i c r = (
  record { first = none; links = set st.links e.0 (taken_off l) },
  take_off_by st e.0 l none i.behind c,
  record { chain = refl; room = omega arith },
)
unlinked-Chain st e (x ∷ es) l f i (p, k, j, c) r =
    let passed = set st.links x.0 (set_prev none k) in
    let apart = other_prev st.links e.0 l none x (some e.0) k i.found i.behind (λ q. cc) j in
    let self =
      get_elem?-set_other st.links x.0 e.0 (set_prev none k) (λ q. apart (sym q)) ∙ i.found in
    let second =
      Chain-set_second st.links e.0 x.0 l k (set_prev none k) k.next x.0 es i.found i.behind j.found
        j.behind apart c in
    (
      record { first = some x.0; links = set passed e.0 (taken_off l) },
      take_off_by st e.0 l (some x.0) i.behind p ∙ rw (living-IsLink st.links x (some e.0) k j),
      record {
        chain = (
          refl,
          set_prev none k,
          record {
            found =
                get_elem?-set_other passed e.0 x.0 (taken_off l) apart
                ∙ get_elem?-set_self st.links x.0 (set_prev none k) j.found;
            payload = j.payload;
            behind = refl;
            linked = j.linked;
            alive = j.alive;
          },
          Chain-set_head passed e.0 l (taken_off l) k.next x.0 es self i.behind second,
        );
        room =
            omega (
              arith,
              length-set passed e.0 (taken_off l),
              length-set st.links x.0 (set_prev none k),
            );
      },
    )

-- The first link of a list, in use or not, is unlinked by the call, and the list then stands for the
-- links behind it.
pub linked_unlink_first-IsList :
    (st : LinkedList) (e : Entry) (es : List Entry)
    → IsList st (e ∷ es)
    → (st' : LinkedList) × (linked_unlink st e.0 ≡ some (true, st')) × IsList st' es
linked_unlink_first-IsList st e es i =
    let (p, l, j, c) = i.chain in
    let (st', t, k) = unlinked-Chain st e es l p j c i.room in (st', unlink_by st st' e l p j t, k)
