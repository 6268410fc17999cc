-- ===== src/Examples/Queues.antt =====
-- A linked queue of small numbers.
use vorder.Base.{◌≡◌, refl, none, some, List, [], ◌∷◌, if◌then◌else◌, ◌==◌, arith}
use vorder.Dqueue.{Dqueue, size}
use vorder.Dqueue.Links.{before, after, IsQueue}
use vorder.Dqueue.Run.{
  Op, front, back, take_front, take_back, in_front, remove, run, spec, spec_run, AllAllowed,
  run-IsQueue,
}
use vorder.Dqueue.Walk.{size-IsQueue}

abbrev empty : Dqueue
empty = record { front = none; back = none; prev = λ a. none; next = λ a. none }

abbrev calls : List Op
calls = back 1 ∷ back 2 ∷ front 3 ∷ in_front 4 2 ∷ remove 1 ∷ remove 9 ∷ take_front ∷ take_back ∷ []

empty-IsQueue : IsQueue [] empty
unfolding before after
empty-IsQueue = record {
  distinct = tt;
  front_eq = refl;
  back_eq = refl;
  prev_eq = λ a. refl;
  next_eq = λ a. refl;
}

calls-AllAllowed : AllAllowed calls []
unfolding AllAllowed spec
calls-AllAllowed = (refl, (refl, (refl, ((refl, refl), (tt, (tt, (tt, (tt, tt))))))))

run-IsQueue_example :
    (e : Dqueue) × (run calls empty ≡ some (e, (spec_run calls []).1))
    × IsQueue (spec_run calls []).0 e
run-IsQueue_example = run-IsQueue calls [] empty empty-IsQueue calls-AllAllowed

-- The nodes 5 and 7.
abbrev pair : Dqueue
pair = record {
  front = some 5;
  back = some 7;
  prev = λ a. if a == 7 then some 5 else none;
  next = λ a. if a == 5 then some 7 else none;
}

pair-IsQueue : IsQueue (5 ∷ 7 ∷ []) pair
unfolding before after
pair-IsQueue = record {
  distinct = (refl, (refl, tt));
  front_eq = refl;
  back_eq = refl;
  prev_eq = λ a. ground arith;
  next_eq = λ a. ground arith;
}

size-IsQueue_example : size 3 pair ≡ some 2
size-IsQueue_example = size-IsQueue (5 ∷ 7 ∷ []) pair 3 pair-IsQueue (omega arith) (omega arith)
