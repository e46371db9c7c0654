-- ===== src/Linked/Unlink.antt =====
-- `linked_unlink` of src/linked.c.
use cfloor.Base.{ℕ, Bool, true, false, Option, none, some, ◌==◌, if◌then◌else◌}
use cfloor.Linked.{Link, LinkedList, load, store, set_next}

-- `linked_unlink`, once the link before it, or the list, has been found to point to the link.
abbrev pub set_prev : Option ℕ → Link → Link
set_prev p l = record l { prev = p }

abbrev pub stored : LinkedList → ℕ → (Link → Link) → Option Link → Option LinkedList
stored st a f none = none
stored st a f (some l) = some (store st a (f l))

abbrev pub pass_prev : LinkedList → Option ℕ → Option ℕ → Option LinkedList
pass_prev st prev none = some st
pass_prev st prev (some b) = stored st b (set_prev prev) (load st b)

abbrev pub taken_off : Link → Link
taken_off l = record l { unlinked = true; freed = l.in_use == 0 }

abbrev pub pass_next : LinkedList → Option ℕ → Option ℕ → Option LinkedList
pass_next st none next = some (record st { first = next })
pass_next st (some p) next = stored st p (set_next next) (load st p)

abbrev pub then_pass : Option LinkedList → (LinkedList → Option LinkedList) → Option LinkedList
then_pass none f = none
then_pass (some st) f = f st

unfoldable pub take_off : LinkedList → ℕ → Link → Option LinkedList
take_off st a l =
    then_pass (pass_prev st l.prev l.next)
      (λ st'. pass_next (store st' a (taken_off l)) l.prev l.next)

-- What stands in front of the link points to it.
abbrev pub points_to : Option ℕ → ℕ → Bool
points_to none a = false
points_to (some b) a = b == a

abbrev pub next_points : ℕ → Option Link → Option Bool
next_points a none = none
next_points a (some l) = some (points_to l.next a)

abbrev pub before_points : LinkedList → Option ℕ → ℕ → Option Bool
before_points st none a = some (points_to st.first a)
before_points st (some p) a = next_points a (load st p)

abbrev pub by_this_call : Option LinkedList → Option (Bool × LinkedList)
by_this_call none = none
by_this_call (some st) = some (true, st)

-- The value returned is whether the link has been unlinked by this call. Where the link before does
-- not point to it and it is not unlinked, the code tries again; no other thread changes the list
-- here, so that this would go on for ever, which is `none`.
abbrev pub unlink_at : LinkedList → ℕ → Link → Option Bool → Option (Bool × LinkedList)
unlink_at st a l none = none
unlink_at st a l (some false) = if l.unlinked then some (false, st) else none
unlink_at st a l (some true) =
    if l.unlinked then some (false, st) else by_this_call (take_off st a l)

abbrev pub unlink_from : LinkedList → ℕ → Option Link → Option (Bool × LinkedList)
unlink_from st a none = none
unlink_from st a (some l) = unlink_at st a l (before_points st l.prev a)

unfoldable pub linked_unlink : LinkedList → ℕ → Option (Bool × LinkedList)
linked_unlink st a = unlink_from st a (load st a)
