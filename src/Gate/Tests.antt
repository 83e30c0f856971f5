-- ===== src/Gate/Tests.antt =====
-- A gate for two workers, which both pass, and whose next attempt times out.
use python_concurrency_examp.Prelude.{◌+◌, ◌<◌, ◌≡◌, refl, [], ◌∷◌, length, Star, here, next}
use python_concurrency_examp.Prelude.Int.{pos}
use python_concurrency_examp.Python.{ok, err, broken_barrier}
use python_concurrency_examp.Python.Barrier.{filling, broken, arrive, resume}
use python_concurrency_examp.Gate.{DeploymentGate, create, begin_wait, end_wait}
use python_concurrency_examp.Gate.System.{
  System, Step, is_blocked, is_refused, joins, releases_all, goes_on,
}
use python_concurrency_examp.Gate.Passing.{passed, groups, on_the_way}
use python_concurrency_examp.Gate.Rendezvous.{fresh, passed-groups}

abbrev for_two : DeploymentGate
for_two = record { barrier = record { parties = 2; count = 0; state = filling } }

for_two-made : create (pos 2) ≡ ok for_two
unfolding create
for_two-made = refl

abbrev second_failed : System
second_failed = record {
  gate = record { barrier = record { parties = 2; count = 0; state = broken } };
  waiting = [];
  returned = ok 1 ∷ ok 0 ∷ err broken_barrier ∷ err broken_barrier ∷ [];
  releases = 1;
}

to_second_failed : Star Step (fresh for_two) second_failed
unfolding begin_wait end_wait arrive resume
to_second_failed =
    next
      (next
        (next
          (next
            (next (next (next here (joins "assets" 0 refl)) (releases_all "cache" 1 refl))
              (is_blocked "early" refl))
            (goes_on [] [] 0 _ refl refl))
          (joins "assets" 0 refl))
        (goes_on [] [] 0 _ refl refl))
      (is_refused "cache" refl)

passed-groups_example :
    (passed second_failed.returned
        + on_the_way second_failed.gate.barrier.state (length second_failed.waiting)
      ≡ groups 2 second_failed.releases)
    × (length second_failed.waiting < 2)
passed-groups_example = passed-groups (pos 2) for_two second_failed for_two-made to_second_failed
