-- ===== src/Linked/Traversal.antt =====
-- `linked_first` and `linked_next` of src/linked.c, called one after another along a list.
use cfloor.Base.{
  ℕ, zero, suc, ◌≤◌, ◌<◌, ◌≡◌, ◌≢◌, sym, ap, ◌∙◌, false, Option, none, some, List, [], ◌∷◌, length,
  length-set, get_elem?-set_self, get_elem?-set_other, set, set-set_self, set_same, set_swap, arith,
}
use cfloor.Linked.{
  Link, LinkedList, load, use_more, hand_out, linked_first, released, linked_release, leave,
  linked_next, traverse,
}
use cfloor.Linked.Chain.{Entry, IsLink, Chain, IsList, payloads, living-IsLink, no_loop}

-- The loop of `linked_length`, of `dataHandler` and of `cleanup`, without what they do at a link.
abbrev pub traversed : Option (Option ℕ × LinkedList) → Option (List ℕ × LinkedList)
traversed none = none
traversed (some (o, st)) = traverse (suc (length st.links)) o st

abbrev pub with_links : LinkedList → List Link → LinkedList
with_links st ls = record st { links = ls }

released_more : (l : Link) → l.unlinked ≡ false → l.freed ≡ false → released (use_more l) ≡ l
released_more l u f = ground arith

module _ (st : LinkedList) (ls : List Link) (a : ℕ) (l : Link) (prev : Option ℕ) (d : ℕ)
    (i : IsLink ls (a, d) prev l) where
  held : List Link
  held = set ls a (use_more l)

  pub held_self : load (with_links st (set ls a (use_more l))) a ≡ some (use_more l)
  unfolding load
  held_self = rw (get_elem?-set_self ls a (use_more l) i.found, i.alive)

  back : set (set ls a (use_more l)) a (released (use_more l)) ≡ ls
  back =
      set-set_self ls a (use_more l) (released (use_more l))
      ∙ (ap (set ls a) (released_more l i.linked i.alive) ∙ set_same ls a l i.found)

  pub next_last :
      l.next ≡ none
      → linked_next (with_links st (set ls a (use_more l))) a ≡ some (none, with_links st ls)
  unfolding linked_next linked_release
  next_last e = rw held_self (
      ap (λ (o : Option ℕ). leave a (hand_out (with_links st (set ls a (use_more l))) o)) e
      ∙ rw (held_self, back))

  module _ (b : ℕ) (k : Link) (d' : ℕ) (prev' : Option ℕ) (j : IsLink ls (b, d') prev' k)
      (apart : a ≢ b) where
    other_held : load (with_links st (set ls a (use_more l))) b ≡ some k
    unfolding load
    other_held = rw (get_elem?-set_other ls a b (use_more l) apart, j.found, j.alive)

    self_held :
        load (with_links st (set (set ls a (use_more l)) b (use_more k))) a ≡ some (use_more l)
    unfolding load
    self_held = rw (
      get_elem?-set_other (set ls a (use_more l)) b a (use_more k) (λ e. apart (sym e)),
      get_elem?-set_self ls a (use_more l) i.found,
      i.alive,
    )

    back_other :
        set (set (set ls a (use_more l)) b (use_more k)) a (released (use_more l))
        ≡ set ls b (use_more k)
    back_other =
        set_swap (set ls a (use_more l)) b a (use_more k) (released (use_more l))
          (λ e. apart (sym e))
        ∙ ap (λ (xs : List Link). set xs b (use_more k)) back

    pub next_more :
        l.next ≡ some b
        → linked_next (with_links st (set ls a (use_more l))) a
          ≡ some (some b, with_links st (set ls b (use_more k)))
    unfolding linked_next linked_release
    next_more e = rw held_self (
        ap (λ (o : Option ℕ). leave a (hand_out (with_links st (set ls a (use_more l))) o)) e
        ∙ rw (other_held, self_held, back_other))

traverse-Chain :
    (st : LinkedList) (ls : List Link) (fuel : ℕ) (e : Entry) (prev : Option ℕ) (l : Link)
    (es : List Entry)
    → IsLink ls e prev l
    → Chain ls l.next (some e.0) es
    → length es < fuel
    → traverse fuel (some e.0) (with_links st (set ls e.0 (use_more l)))
      ≡ some (payloads (e ∷ es), with_links st ls)
unfolding traverse
traverse-Chain st ls zero e prev l es i c f = absurd (omega arith)
traverse-Chain st ls (suc fuel) (a, d) prev l [] i c f =
    rw (held_self st ls a l prev d i, next_last st ls a l prev d i c)
      (ap (λ (n : ℕ). some (n ∷ [], with_links st ls)) i.payload)
traverse-Chain st ls (suc fuel) (a, d) prev l (x ∷ es) i (p, k, j, c) f =
    let apart : a ≢ x.0 = λ same.
      let loop : l.next ≡ some a = p ∙ ap some (sym same) in
      no_loop ls a l l.next (some a) (x ∷ es) i.found loop loop (p, k, j, c) in
    rw
      (
        held_self st ls a l prev d i,
        next_more st ls a l prev d i x.0 k x.1 (some a) j apart p,
        traverse-Chain st ls fuel x (some a) k es j c (omega arith),
      )
      (ap (λ (n : ℕ). some (n ∷ payloads (x ∷ es), with_links st ls)) i.payload)

traversed-Chain :
    (st : LinkedList) (o : Option ℕ) (es : List Entry)
    → Chain st.links o none es
    → length es ≤ length st.links
    → traversed (hand_out st o) ≡ some (payloads es, st)
unfolding load traverse
traversed-Chain st o [] c r = rw c
traversed-Chain st o (e ∷ es) (p, l, i, c) r =
    let held = set st.links e.0 (use_more l) in
    rw (p, living-IsLink st.links e none l i)
      (traverse-Chain st st.links (suc (length held)) e none l es i c
        (omega (arith, length-set st.links e.0 (use_more l))))

-- A traversal of a list visits its links in order and ends; it leaves every link as it was, its use
-- count included.
pub traversed-IsList :
    (st : LinkedList) (es : List Entry)
    → IsList st es
    → traversed (linked_first st) ≡ some (payloads es, st)
unfolding linked_first
traversed-IsList st es i = traversed-Chain st st.first es i.chain i.room
