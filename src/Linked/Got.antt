-- ===== src/Linked/Got.antt =====
-- `linked_get` of src/linked.c on a list.
use cfloor.Base.{
  ℕ, zero, suc, ◌≡◌, ◌≢◌, refl, sym, ap, ◌∙◌, Option, none, some, List, [], ◌∷◌, get_elem?, set,
}
use cfloor.Linked.{
  Link, LinkedList, load, store, use_more, hand_out, linked_first, got, get_from, linked_get,
}
use cfloor.Linked.Chain.{Entry, IsLink, Chain, IsList, living-IsLink, no_loop}
use cfloor.Linked.Traversal.{with_links, next_last, next_more}

-- What a call returns for the entry at its index: the link, with one more user, or NULL.
abbrev pub Got : LinkedList → Option Entry → Option (Option ℕ × LinkedList) → Type 0
Got st none r = r ≡ some (none, st)
Got st (some e) r =
    (l : Link) × (get_elem? st.links e.0 ≡ some l)
    × (r ≡ some (some e.0, store st e.0 (use_more l)))

get_from-Chain :
    (st : LinkedList) (index : ℕ) (e : Entry) (prev : Option ℕ) (l : Link) (es : List Entry)
    → IsLink st.links e prev l
    → Chain st.links l.next (some e.0) es
    → Got st
        (get_elem? (e ∷ es) index)
        (get_from index (some e.0) (with_links st (set st.links e.0 (use_more l))))
unfolding get_from
get_from-Chain st zero e prev l es i c = (l, i.found, refl)
get_from-Chain st (suc index) (a, d) prev l [] i c =
    ap (got (λ o st'. get_from index o st')) (next_last st st.links a l prev d i c)
get_from-Chain st (suc index) (a, d) prev l (x ∷ es) i (p, k, j, c) =
    let apart : a ≢ x.0 = λ same.
      let loop : l.next ≡ some a = p ∙ ap some (sym same) in
      no_loop st.links a l l.next (some a) (x ∷ es) i.found loop loop (p, k, j, c) in
    rw (next_more st st.links a l prev d i x.0 k x.1 (some a) j apart p)
      (get_from-Chain st index x (some a) k es j c)

get-Chain :
    (st : LinkedList) (index : ℕ) (o : Option ℕ) (es : List Entry)
    → Chain st.links o none es
    → Got st (get_elem? es index) (got (λ o st'. get_from index o st') (hand_out st o))
unfolding load get_from
get-Chain st index o [] c = rw c refl
get-Chain st index o (e ∷ es) (p, l, i, c) =
    rw (p, living-IsLink st.links e none l i) (get_from-Chain st index e none l es i c)

-- linked_get returns the link at the index, with one more user, or NULL behind the list's end; all else
-- stays as it was.
pub linked_get-IsList :
    (st : LinkedList) (es : List Entry) (index : ℕ)
    → IsList st es
    → Got st (get_elem? es index) (linked_get st index)
unfolding linked_get linked_first
linked_get-IsList st es index i = get-Chain st index st.first es i.chain
