-- ===== src/Linked/Destroy.antt =====
-- `linked_destroy` of src/linked.c.
use cfloor.Base.{ℕ, zero, suc, true, Option, none, some, length, ◌==◌}
use cfloor.Linked.{Link, LinkedList, load, store}
use cfloor.Linked.Unlink.{set_prev, stored}

-- A link that is passed leads nowhere, and is freed where nobody uses it.
abbrev pub cleared : Link → Link
cleared l = record l { next = none; unlinked = true; freed = l.in_use == 0 }

-- The list begins with the next link, where there is one.
abbrev pub begin_with : LinkedList → Option ℕ → Option LinkedList
begin_with st none = some st
begin_with st (some b) = stored (record st { first = some b }) b (set_prev none) (load st b)

abbrev pub clear_then :
    (LinkedList → Option LinkedList) → ℕ → Link → Option LinkedList → Option LinkedList
clear_then on a l none = none
clear_then on a l (some st) = on (store st a (cleared l))

abbrev pub destroy_at :
    (Option ℕ → LinkedList → Option LinkedList) → LinkedList → ℕ → Option Link → Option LinkedList
destroy_at on st a none = none
destroy_at on st a (some l) = clear_then (on l.next) a l (begin_with st l.next)

unfoldable pub destroy_from : ℕ → Option ℕ → LinkedList → Option LinkedList
destroy_from fuel none st = some st
destroy_from zero (some a) st = none
destroy_from (suc fuel) (some a) st = destroy_at (λ o st'. destroy_from fuel o st') st a (load st a)

-- On fuel of one more than the links there are.
unfoldable pub linked_destroy : LinkedList → Option LinkedList
linked_destroy st = destroy_from (suc (length st.links)) st.first st
