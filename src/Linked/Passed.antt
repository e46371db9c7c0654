-- ===== src/Linked/Passed.antt =====
-- `linked_unlink` of src/linked.c on any link of a list.
use cfloor.Base.{
  ℕ, ◌≡◌, refl, sym, ap, ◌∙◌, true, Option, none, some, List, [], ◌∷◌, ◌++◌, append_assoc, length,
  length-append, length-set, get_elem?, get_elem?-set_self, get_elem?-set_other, set, ==_refl,
  arith,
}
use cfloor.Linked.{Link, LinkedList, load, store, set_next}
use cfloor.Linked.Unlink.{
  set_prev, taken_off, pass_prev, pass_next, then_pass, take_off, points_to, before_points,
  next_points, unlink_at, linked_unlink,
}
use cfloor.Linked.Chain.{Entry, IsLink, Chain, IsList, living-IsLink, same_link}
use cfloor.Linked.Distinct.{IsApart, Chain-IsApart, Chain-set, Chain-behind, rest_of}
use cfloor.Linked.Unlinked.{take_off_between, linked_unlink_first-IsList}

-- What the links are once the link behind, if any, points back past the one that is taken off.
record IsPassed (st : LinkedList) (q : ℕ) (es : List Entry) (n : Option ℕ) (base : List Link)
    : Type 0 where
  run : pass_prev st (some q) n ≡ some (record { first = st.first; links = base })
  chain : Chain base n (some q) es
  others : (a : ℕ) → IsApart a es → get_elem? base a ≡ get_elem? st.links a
  size : length base ≡ length st.links

pass_prev-IsPassed :
    (st : LinkedList) (q : ℕ) (n p : Option ℕ) (es : List Entry)
    → Chain st.links n p es
    → (base : List Link) × IsPassed st q es n base
unfolding load
pass_prev-IsPassed st q n p [] c = (
  st.links,
  record { run = ap (pass_prev st (some q)) c; chain = c; others = λ a i. refl; size = refl },
)
pass_prev-IsPassed st q n p (x ∷ es) (e, k, i, c) =
    let z = set_prev (some q) k in
    (
      set st.links x.0 z,
      record {
        run = ap (pass_prev st (some q)) e ∙ rw (living-IsLink st.links x p k i);
        chain = (
          e,
          z,
          record {
            found = get_elem?-set_self st.links x.0 z i.found;
            payload = i.payload;
            behind = refl;
            linked = i.linked;
            alive = i.alive;
          },
          Chain-set st.links x.0 z k.next (some x.0) es
              (Chain-IsApart st.links n p x es (e, k, i, c)) c,
        );
        others = λ a j. get_elem?-set_other st.links x.0 a z (λ w. j.0 (sym w));
        size = length-set st.links x.0 z;
      },
    )

-- The links behind the call.
abbrev unlinked_links : List Link → ℕ → ℕ → Link → Link → List Link
unlinked_links base q a l m = set (set base a (taken_off l)) q (set_next l.next m)

module _ (st : LinkedList) (q e : Entry) (es : List Entry) (m l : Link) (p : Option ℕ)
    (i : IsLink st.links q p m) (leads : m.next ≡ some e.0) (j : IsLink st.links e (some q.0) l)
    (base : List Link) (b : IsPassed st q.0 es l.next base) (q_apart : IsApart q.0 (e ∷ es))
    (e_apart : IsApart e.0 es) where
  q_stays : get_elem? (set base e.0 (taken_off l)) q.0 ≡ some m
  q_stays =
      get_elem?-set_other base e.0 q.0 (taken_off l) (λ w. q_apart.0 (sym w))
      ∙ b.others q.0 q_apart.1
      ∙ i.found

  taken :
      take_off st e.0 l
      ≡ some (record { first = st.first; links = unlinked_links base q.0 e.0 l m })
  unfolding take_off load
  taken =
      ap (λ (o : Option ℕ). take_off_between st e.0 l o l.next) j.behind
      ∙ ap
          (λ (o : Option LinkedList).
            then_pass o (λ st'. pass_next (store st' e.0 (taken_off l)) (some q.0) l.next))
          b.run
      ∙ rw (q_stays, i.alive)

  unlinks :
      linked_unlink st e.0
      ≡ some (true, record { first = st.first; links = unlinked_links base q.0 e.0 l m })
  unfolding linked_unlink load
  unlinks =
      let points : before_points st l.prev e.0 ≡ some true =
        ap (λ (o : Option ℕ). before_points st o e.0) j.behind
        ∙ ap (next_points e.0) (living-IsLink st.links q p m i)
        ∙ ap (λ (o : Option ℕ). some (points_to o e.0)) leads
        ∙ ap some (==_refl e.0) in
      rw (living-IsLink st.links e (some q.0) l j)
        (ap (unlink_at st e.0 l) points ∙ simp (j.linked, taken))

  links_keep :
      (a : ℕ)
      → IsApart a (q ∷ e ∷ es)
      → get_elem? (unlinked_links base q.0 e.0 l m) a ≡ get_elem? st.links a
  links_keep a n =
      get_elem?-set_other (set base e.0 (taken_off l)) q.0 a (set_next l.next m) (λ w. n.0 (sym w))
      ∙ get_elem?-set_other base e.0 a (taken_off l) (λ w. n.1.0 (sym w))
      ∙ b.others a n.1.1

  links_tail :
      (o p' : Option ℕ)
      → Chain st.links o p' (q ∷ e ∷ es)
      → Chain (unlinked_links base q.0 e.0 l m) o p' (q ∷ es)
  links_tail o p' (r, k, h, c) =
      let one : k ≡ m = same_link (get_elem? st.links q.0) m k i.found h.found in
      (
        r,
        set_next l.next m,
        record {
          found = get_elem?-set_self (set base e.0 (taken_off l)) q.0 (set_next l.next m) q_stays;
          payload = i.payload;
          behind = ap (λ (z : Link). z.prev) (sym one) ∙ h.behind;
          linked = i.linked;
          alive = i.alive;
        },
        Chain-set (set base e.0 (taken_off l)) q.0 (set_next l.next m) l.next (some q.0) es
            q_apart.1 (Chain-set base e.0 (taken_off l) l.next (some q.0) es e_apart b.chain),
      )

  links_size : length (unlinked_links base q.0 e.0 l m) ≡ length st.links
  links_size = omega (
    arith,
    length-set (set base e.0 (taken_off l)) q.0 (set_next l.next m),
    length-set base e.0 (taken_off l),
    b.size,
  )

unlink_behind-IsList :
    (st : LinkedList) (ps : List Entry) (q e : Entry) (es : List Entry)
    → IsList st (ps ++ (q ∷ e ∷ es))
    → (st' : LinkedList) × (linked_unlink st e.0 ≡ some (true, st')) × IsList st' (ps ++ (q ∷ es))
unlink_behind-IsList st ps q e es i =
    let (o, p, (r, m, j, (s, l, k, c))) = rest_of st.links st.first none ps (q ∷ e ∷ es) i.chain in
    let (base, b) = pass_prev-IsPassed st q.0 l.next (some e.0) es c in
    let q_apart = Chain-IsApart st.links o p q (e ∷ es) (r, m, j, (s, l, k, c)) in
    let e_apart = Chain-IsApart st.links m.next (some q.0) e es (s, l, k, c) in
    (
      record { first = st.first; links = unlinked_links base q.0 e.0 l m },
      unlinks st q e es m l p j s k base b q_apart e_apart,
      record {
        chain =
            Chain-behind st.links (unlinked_links base q.0 e.0 l m) q (e ∷ es) es
              (links_keep st q e es m l p j s k base b q_apart e_apart)
              (links_tail st q e es m l p j s k base b q_apart e_apart) st.first none ps i.chain;
        room = omega (
          arith,
          i.room,
          links_size st q e es m l p j s k base b q_apart e_apart,
          length-append ps (q ∷ e ∷ es),
          length-append ps (q ∷ es),
        );
      },
    )

-- The last of some entries, if any.
data LastOf : List Entry → Type 0 where
  nothing : LastOf []
  ends : (ps : List Entry) (q : Entry) → LastOf (ps ++ (q ∷ []))

last_of : (ps : List Entry) → LastOf ps
last_of [] = nothing
last_of (x ∷ ps) = step (last_of ps)
  where
    step : {qs : List Entry} → LastOf qs → LastOf (x ∷ qs)
    step nothing = ends [] x
    step (ends qs q) = ends (x ∷ qs) q

-- Any link of a list, in use or not, is unlinked by the call, and the list then stands for the others
-- in their order.
pub linked_unlink-IsList :
    (st : LinkedList) (ps : List Entry) (e : Entry) (es : List Entry)
    → IsList st (ps ++ (e ∷ es))
    → (st' : LinkedList) × (linked_unlink st e.0 ≡ some (true, st')) × IsList st' (ps ++ es)
linked_unlink-IsList st ps e es i = behind (last_of ps) i
  where
    behind :
        {qs : List Entry}
        → LastOf qs
        → IsList st (qs ++ (e ∷ es))
        → (st' : LinkedList) × (linked_unlink st e.0 ≡ some (true, st')) × IsList st' (qs ++ es)
    behind nothing i = linked_unlink_first-IsList st e es i
    behind (ends qs q) i =
        rw (append_assoc qs (q ∷ []) es)
          (unlink_behind-IsList st qs q e es (rw (append_assoc qs (q ∷ []) (e ∷ es)) at i))
