-- ===== src/Linked.antt =====
-- src/linked.c, the list of links on which connections are kept. An address is an index into the
-- store of the links that malloc has returned. Each operation is taken as a whole, as its locks make
-- it for one thread.
pub mod Chain
pub mod Unlink
pub mod Destroy
pub mod Destroyed
pub mod Got
pub mod Pushed
pub mod Traversal
pub mod Dangling
pub mod Unlinked
pub mod Distinct
pub mod Passed
mod Tests
use cfloor.Base.{
  ℕ, zero, suc, ◌+◌, ◌-◌, Bool, true, false, ◌&&◌, Option, none, some, List, [], ◌∷◌, ◌++◌, length,
  get_elem?, set, ◌==◌, if◌then◌else◌,
}

-- `payload` is the field `data`, a pointer. `freed`: the memory has been given back.
pub record Link : Type 0 where
  pub payload : ℕ
  pub in_use : ℕ
  pub next : Option ℕ
  pub prev : Option ℕ
  pub unlinked : Bool
  pub freed : Bool

pub record LinkedList : Type 0 where
  pub first : Option ℕ
  pub links : List Link

abbrev pub linked_create : LinkedList
linked_create = record { first = none; links = [] }

-- A read through a pointer; `none` where the link is freed or was never there.
abbrev pub living : Option Link → Option Link
living none = none
living (some l) = if l.freed then none else some l

unfoldable pub load : LinkedList → ℕ → Option Link
load st a = living (get_elem? st.links a)

abbrev pub store : LinkedList → ℕ → Link → LinkedList
store st a l = record st { links = set st.links a l }

abbrev pub new_link : ℕ → Option ℕ → Link
new_link payload prev = record {
  payload = payload;
  in_use = 0;
  next = none;
  prev = prev;
  unlinked = false;
  freed = false;
}

-- The walk to the last link, which counts the links; on fuel of more links than there are.
abbrev pub walked : (ℕ → ℕ → Option (ℕ × ℕ)) → ℕ → ℕ → Option Link → Option (ℕ × ℕ)
walked on a index none = none
walked on a index (some l) = elim l.next [ none ↦ some (a, index) | some b ↦ on b (suc index) ]

unfoldable pub walk_to_last : LinkedList → ℕ → ℕ → ℕ → Option (ℕ × ℕ)
walk_to_last st zero a index = none
walk_to_last st (suc fuel) a index = walked (λ b i. walk_to_last st fuel b i) a index (load st a)

abbrev pub set_next : Option ℕ → Link → Link
set_next b l = record l { next = b }

-- The new link goes behind the last one.
abbrev pub append_at : LinkedList → ℕ → ℕ → ℕ → Option Link → Option (ℕ × LinkedList)
append_at st payload a index none = none
append_at st payload a index (some l) = some (
  index,
  record st {
    links =
        set st.links a (set_next (some (length st.links)) l) ++ (new_link payload (some a) ∷ []);
  },
)

abbrev pub append_behind : LinkedList → ℕ → Option (ℕ × ℕ) → Option (ℕ × LinkedList)
append_behind st payload none = none
append_behind st payload (some (a, index)) = append_at st payload a index (get_elem? st.links a)

abbrev pub push_from : LinkedList → ℕ → Option ℕ → Option (ℕ × LinkedList)
push_from st payload none =
    some (
      0,
      record { first = some (length st.links); links = st.links ++ (new_link payload none ∷ []) },
    )
push_from st payload (some a) =
    append_behind st payload (walk_to_last st (suc (length st.links)) a 1)

-- The index of the new link; a failed malloc, where the code returns -1, changes nothing. `none`:
-- the walk goes through a freed link, or never ends.
unfoldable pub linked_push : LinkedList → ℕ → Option (ℕ × LinkedList)
linked_push st payload = push_from st payload st.first

abbrev pub use_more : Link → Link
use_more l = record l { in_use = l.in_use + 1 }

-- The link that is handed out counts its user.
abbrev pub hand_link : LinkedList → ℕ → Option Link → Option (Option ℕ × LinkedList)
hand_link st a none = none
hand_link st a (some l) = some (some a, store st a (use_more l))

abbrev pub hand_out : LinkedList → Option ℕ → Option (Option ℕ × LinkedList)
hand_out st none = some (none, st)
hand_out st (some a) = hand_link st a (load st a)

unfoldable pub linked_first : LinkedList → Option (Option ℕ × LinkedList)
linked_first st = hand_out st st.first

-- A link that is unlinked is freed by its last user. The caller is one, so that the count is not 0.
abbrev pub released : Link → Link
released l = record l { in_use = l.in_use - 1; freed = l.unlinked && l.in_use == 1 }

abbrev pub release_link : LinkedList → ℕ → Option Link → Option LinkedList
release_link st a none = none
release_link st a (some l) = some (store st a (released l))

unfoldable pub linked_release : LinkedList → ℕ → Option LinkedList
linked_release st a = release_link st a (load st a)

abbrev pub handed : Option ℕ → Option LinkedList → Option (Option ℕ × LinkedList)
handed b none = none
handed b (some st) = some (b, st)

abbrev pub leave : ℕ → Option (Option ℕ × LinkedList) → Option (Option ℕ × LinkedList)
leave a none = none
leave a (some (b, st)) = handed b (linked_release st a)

abbrev pub step_from : LinkedList → ℕ → Option Link → Option (Option ℕ × LinkedList)
step_from st a none = none
step_from st a (some l) = leave a (hand_out st l.next)

unfoldable pub linked_next : LinkedList → ℕ → Option (Option ℕ × LinkedList)
unfolding linked_release
linked_next st a = step_from st a (load st a)

-- The loop of `linked_length`, and of any traversal: the links from `a` on, in order.
abbrev pub noted : ℕ → Option (List ℕ × LinkedList) → Option (List ℕ × LinkedList)
noted payload none = none
noted payload (some (xs, st)) = some (payload ∷ xs, st)

abbrev pub visited :
    (Option ℕ → LinkedList → Option (List ℕ × LinkedList))
    → ℕ
    → Option Link
    → Option (Option ℕ × LinkedList)
    → Option (List ℕ × LinkedList)
visited on a none r = none
visited on a (some l) none = none
visited on a (some l) (some (b, st)) = noted l.payload (on b st)

unfoldable pub traverse : ℕ → Option ℕ → LinkedList → Option (List ℕ × LinkedList)
traverse fuel none st = some ([], st)
traverse zero (some a) st = none
traverse (suc fuel) (some a) st =
    visited (λ b st'. traverse fuel b st') a (load st a) (linked_next st a)

-- The loop of `linked_get`: the link it stops at is in use by the caller.
abbrev pub got :
    (Option ℕ → LinkedList → Option (Option ℕ × LinkedList))
    → Option (Option ℕ × LinkedList)
    → Option (Option ℕ × LinkedList)
got on none = none
got on (some (o, st)) = on o st

unfoldable pub get_from : ℕ → Option ℕ → LinkedList → Option (Option ℕ × LinkedList)
get_from index none st = some (none, st)
get_from zero (some a) st = some (some a, st)
get_from (suc index) (some a) st = got (λ o st'. get_from index o st') (linked_next st a)

unfoldable pub linked_get : LinkedList → ℕ → Option (Option ℕ × LinkedList)
linked_get st index = got (λ o st'. get_from index o st') (linked_first st)
