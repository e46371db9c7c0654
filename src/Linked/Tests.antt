-- ===== src/Linked/Tests.antt =====
-- src/linked.c on a list of two links, and its theorems there.
use cfloor.Base.{◌≡◌, refl, true, false, arith, none, some, List, [], ◌∷◌}
use cfloor.Linked.{
  Link, LinkedList, linked_create, walk_to_last, load, linked_push, linked_first, linked_get,
}
use cfloor.Linked.Unlink.{linked_unlink}
use cfloor.Linked.Chain.{IsList}
use cfloor.Linked.Got.{Got, linked_get-IsList}
use cfloor.Linked.Traversal.{traversed, traversed-IsList}
use cfloor.Linked.Passed.{linked_unlink-IsList}
use cfloor.Linked.Destroy.{linked_destroy}
use cfloor.Linked.Destroyed.{AreCleared, linked_destroy-AreCleared}
use cfloor.Linked.Dangling.{second_of_two}

abbrev two_links : List Link
two_links =
    record { payload = 70; in_use = 0; next = some 1; prev = none; unlinked = false; freed = false }
    ∷ second_of_two 71 (some 0)
    ∷ []

abbrev two : LinkedList
two = record { first = some 0; links = two_links }

two-IsList : IsList two ((0, 70) ∷ (1, 71) ∷ [])
two-IsList = record {
  chain = (
    refl,
    record {
      payload = 70;
      in_use = 0;
      next = some 1;
      prev = none;
      unlinked = false;
      freed = false;
    },
    record { found = refl; payload = refl; behind = refl; linked = refl; alive = refl },
    (
      refl,
      second_of_two 71 (some 0),
      record { found = refl; payload = refl; behind = refl; linked = refl; alive = refl },
      refl,
    ),
  );
  room = omega arith;
}

-- The two links come from two pushes.
two_pushed :
    linked_push (record linked_create { first = some 0; links = second_of_two 70 none ∷ [] }) 71
    ≡ some (1, two)
unfolding linked_push walk_to_last load
two_pushed = refl

loop_of_two : traversed (linked_first two) ≡ some (70 ∷ 71 ∷ [], two)
loop_of_two = traversed-IsList two ((0, 70) ∷ (1, 71) ∷ []) two-IsList

linked_get-IsList_example : Got two (some (1, 71)) (linked_get two 1)
linked_get-IsList_example = linked_get-IsList two ((0, 70) ∷ (1, 71) ∷ []) 1 two-IsList

linked_unlink-IsList_example :
    (st' : LinkedList) × (linked_unlink two 1 ≡ some (true, st')) × IsList st' ((0, 70) ∷ [])
linked_unlink-IsList_example = linked_unlink-IsList two ((0, 70) ∷ []) (1, 71) [] two-IsList

linked_destroy-AreCleared_example :
    (st' : LinkedList) × (linked_destroy two ≡ some st')
    × AreCleared st'.links ((0, 70) ∷ (1, 71) ∷ [])
    × (st'.first ≡ some 1)
linked_destroy-AreCleared_example = linked_destroy-AreCleared two (0, 70) ((1, 71) ∷ []) two-IsList
