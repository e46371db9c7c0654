-- ===== src/Linked/Pushed.antt =====
-- `linked_push` of src/linked.c on a list.
use cfloor.Base.{
  ℕ, zero, suc, ◌+◌, ◌<◌, ◌≡◌, ◌≢◌, refl, sym, ap, ◌∙◌, Option, none, some, List, [], ◌∷◌, ◌++◌,
  length, length-append, length-set, get_elem?, get_elem?-set_self, get_elem?-set_other,
  get_elem?-append, get_elem?-last, set, arith,
}
use cfloor.Linked.{Link, LinkedList, load, new_link, walk_to_last, set_next, push_from, linked_push}
use cfloor.Linked.Chain.{Entry, IsLink, Chain, IsList, living-IsLink}

abbrev pub last_address : ℕ → List Entry → ℕ
last_address a [] = a
last_address a (e ∷ es) = last_address e.0 es

counted : (b : ℕ) {n m : ℕ} → n ≡ m → ◌≡◌ {A = Option (ℕ × ℕ)} (some (b, n)) (some (b, m))
counted b e = ap (λ (n : ℕ). some (b, n)) e

walk_to_last-Chain :
    (st : LinkedList) (fuel a index : ℕ) (l : Link) (e : Entry) (prev : Option ℕ) (es : List Entry)
    → e.0 ≡ a
    → IsLink st.links e prev l
    → Chain st.links l.next (some e.0) es
    → length es < fuel
    → walk_to_last st fuel a index ≡ some (last_address a es, index + length es)
unfolding walk_to_last load
walk_to_last-Chain st zero a index l e prev es same i c f = absurd (omega arith)
walk_to_last-Chain st (suc fuel) a index l e prev [] same i c f =
    rw (← same, living-IsLink st.links e prev l i, c) (counted e.0 (omega arith))
walk_to_last-Chain st (suc fuel) a index l e prev (x ∷ es) same i (p, k, j, c) f =
    rw (← same, living-IsLink st.links e prev l i, p)
      (walk_to_last-Chain st fuel x.0 (suc index) k x (some e.0) es refl j c (omega arith)
        ∙ counted (last_address x.0 es) (omega arith))

-- The last link of a chain, whose next is NULL.
last_link :
    (ls : List Link) (a : ℕ) (l : Link) (es : List Entry) (e : Entry) (prev : Option ℕ)
    → e.0 ≡ a
    → IsLink ls e prev l
    → Chain ls l.next (some e.0) es
    → (k : Link) × (get_elem? ls (last_address a es) ≡ some k) × (k.next ≡ none)
last_link ls a l [] e prev same i c = (l, rw same at i.found, c)
last_link ls a l (x ∷ es) e prev same i (p, k, j, c) = last_link ls x.0 k es x (some e.0) refl j c

-- The store behind the push.
abbrev pushed_links : List Link → ℕ → Link → ℕ → List Link
pushed_links ls k last payload =
    set ls k (set_next (some (length ls)) last) ++ (new_link payload (some k) ∷ [])

module _ (ls : List Link) (k : ℕ) (last : Link) (payload : ℕ) (found : get_elem? ls k ≡ some last)
    (end : last.next ≡ none) where
  abbrev pushed : List Link
  pushed = pushed_links ls k last payload

  pushed_other :
      (a : ℕ) (l : Link) → get_elem? ls a ≡ some l → l.next ≢ none → get_elem? pushed a ≡ some l
  pushed_other a l g n =
      let apart : k ≢ a = λ e. n (ground arith) in
      get_elem?-append (set ls k _) _ a (get_elem?-set_other ls k a _ apart ∙ g)

  pushed_last : get_elem? pushed k ≡ some (set_next (some (length ls)) last)
  pushed_last = get_elem?-append (set ls k _) _ k (get_elem?-set_self ls k _ found)

  pushed_new : get_elem? pushed (length ls) ≡ some (new_link payload (some k))
  pushed_new =
      get_elem?-last (set ls k (set_next (some (length ls)) last)) _ (length ls)
        (sym (length-set ls k (set_next (some (length ls)) last)))

  pushed-Chain :
      (o prev : Option ℕ) (e : Entry) (es : List Entry)
      → last_address e.0 es ≡ k
      → Chain ls o prev (e ∷ es)
      → Chain pushed o prev ((e ∷ es) ++ ((length ls, payload) ∷ []))
  pushed-Chain o prev e [] at (p, l, i, c) =
      let same : l ≡ last = ground (arith, i.found, found) in
      let j : IsLink ls e prev last = rw same at i in
      (
        p,
        set_next (some (length ls)) last,
        record {
          found = ap (get_elem? pushed) at ∙ pushed_last;
          payload = j.payload;
          behind = j.behind;
          linked = j.linked;
          alive = j.alive;
        },
        (
          refl,
          new_link payload (some k),
          record {
            found = pushed_new;
            payload = refl;
            behind = ap some (sym at);
            linked = refl;
            alive = refl;
          },
          refl,
        ),
      )
  pushed-Chain o prev e (x ∷ es) at (p, l, i, c) = (
    p,
    l,
    record {
      found = pushed_other e.0 l i.found (λ n. cc (c.0));
      payload = i.payload;
      behind = i.behind;
      linked = i.linked;
      alive = i.alive;
    },
    pushed-Chain l.next (some e.0) x es at c,
  )

push_from-IsList :
    (st : LinkedList) (payload : ℕ) (es : List Entry) (o : Option ℕ)
    → st.first ≡ o
    → IsList st es
    → (st' : LinkedList) × (push_from st payload o ≡ some (length es, st'))
      × IsList st' (es ++ ((length st.links, payload) ∷ []))
push_from-IsList st payload [] o f i =
    let empty : o ≡ none = sym f ∙ i.chain in
    (
      record { first = some (length st.links); links = st.links ++ (new_link payload none ∷ []) },
      rw empty,
      record {
        chain = (
          refl,
          new_link payload none,
          record {
            found = get_elem?-last st.links (new_link payload none) (length st.links) refl;
            payload = refl;
            behind = refl;
            linked = refl;
            alive = refl;
          },
          refl,
        );
        room = omega (arith, length-append st.links (new_link payload none ∷ []));
      },
    )
push_from-IsList st payload (e ∷ es) o f i =
    let (p, l, j, c) = i.chain in
    let (last, found, end) = last_link st.links e.0 l es e none refl j c in
    let walk =
      walk_to_last-Chain st (suc (length st.links)) e.0 1 l e none es refl j c
        (omega (arith, i.room)) in
    let full : o ≡ some e.0 = sym f ∙ p in
    let k = last_address e.0 es in
    let ls' = pushed_links st.links k last payload in
    (
      record st { links = ls' },
      rw (full, walk, found) (ap (λ (n : ℕ). some (n, record st { links = ls' })) (omega arith)),
      record {
        chain = pushed-Chain st.links k last payload found end st.first none e es refl (p, l, j, c);
        room = omega (
          arith,
          length-append es ((length st.links, payload) ∷ []),
          length-append (set st.links k (set_next (some (length st.links)) last))
              (new_link payload (some k) ∷ []),
          length-set st.links k (set_next (some (length st.links)) last),
          i.room,
        );
      },
    )

pub linked_push-IsList :
    (st : LinkedList) (payload : ℕ) (es : List Entry)
    → IsList st es
    → (st' : LinkedList) × (linked_push st payload ≡ some (length es, st'))
      × IsList st' (es ++ ((length st.links, payload) ∷ []))
unfolding linked_push
linked_push-IsList st payload es i = push_from-IsList st payload es st.first refl i
