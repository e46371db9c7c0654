-- ===== src/Linked/Chain.antt =====
-- What a list of src/linked.c stands for: the links in order, each with its address and its data.
use cfloor.Base.{
  ℕ, ◌≤◌, ◌≡◌, ap, ◌∙◌, false, Option, none, some, List, [], ◌∷◌, length, get_elem?, arith,
}
use cfloor.Linked.{Link, LinkedList, living}

abbrev pub Entry : Type 0
Entry = ℕ × ℕ

-- The link at the head of a chain.
pub record IsLink (ls : List Link) (e : Entry) (prev : Option ℕ) (l : Link) : Type 0 where
  pub found : get_elem? ls e.0 ≡ some l
  pub payload : l.payload ≡ e.1
  pub behind : l.prev ≡ prev
  pub linked : l.unlinked ≡ false
  pub alive : l.freed ≡ false

-- From the pointer `o` on stand exactly these links, behind `prev`.
abbrev pub Chain : List Link → Option ℕ → Option ℕ → List Entry → Type 0
Chain ls o prev [] = o ≡ none
Chain ls o prev (e ∷ es) =
    (o ≡ some e.0) × (l : Link) × IsLink ls e prev l × Chain ls l.next (some e.0) es

pub record IsList (st : LinkedList) (es : List Entry) : Type 0 where
  pub chain : Chain st.links st.first none es
  pub room : length es ≤ length st.links

abbrev pub payloads : List Entry → List ℕ
payloads [] = []
payloads (e ∷ es) = e.1 ∷ payloads es

pub living-IsLink :
    (ls : List Link) (e : Entry) (prev : Option ℕ) (l : Link)
    → IsLink ls e prev l
    → living (get_elem? ls e.0) ≡ some l
living-IsLink ls e prev l i = rw (i.found, i.alive)

pub same_link : (o : Option Link) (l k : Link) → o ≡ some l → o ≡ some k → k ≡ l
same_link o l k e f = cc

-- No link of a chain points to itself.
pub no_loop :
    (ls : List Link) (a : ℕ) (l : Link) (o prev : Option ℕ) (es : List Entry)
    → get_elem? ls a ≡ some l
    → l.next ≡ some a
    → o ≡ some a
    → Chain ls o prev es
    → ⊥
no_loop ls a l o prev [] g n e c = cc
no_loop ls a l o prev (x ∷ es) g n e (p, k, i, c) =
    let here : x.0 ≡ a = ground arith in
    let k_is : k ≡ l = same_link (get_elem? ls a) l k g (rw here at i.found) in
    no_loop ls a l k.next (some x.0) es g n (ap (λ (z : Link). z.next) k_is ∙ n) c
