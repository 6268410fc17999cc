-- ===== src/Dqueue.antt =====
-- vbh_server_comm/vbh_unite_dqueue.{h,inl}: CVbhUniteDqueue, a queue that links the objects of its
-- client through their members m_pDqueuePrev and m_pDqueueNext. An object is a number, a pointer to
-- one or NULL an Option; a dereference of NULL is a fault. The assertions, absent from a release
-- build, are not modelled.
pub mod Links
pub mod Cut
pub mod Refines
pub mod Run
pub mod Walk
use vorder.Base.{
  ℕ, zero, suc, ◌+◌, ◌%◌, ◌^◌, Bool, true, false, ◌||◌, Option, none, some, if◌then◌else◌, ◌==◌,
}

pub record Dqueue : Type 0 where
  pub front : Option ℕ
  pub back : Option ℕ
  -- m_pDqueuePrev and m_pDqueueNext of each object.
  pub prev : ℕ → Option ℕ
  pub next : ℕ → Option ℕ

-- A write to a member of the object `p`.
abbrev pub update : ℕ → Option ℕ → (ℕ → Option ℕ) → ℕ → Option ℕ
update p v f q = if p == q then v else f q

abbrev pub is_some : Option ℕ → Bool
is_some none = false
is_some (some p) = true

-- Whether a pointer points to the object `p`.
abbrev pub points_to : Option ℕ → ℕ → Bool
points_to none p = false
points_to (some q) p = q == p

unfoldable pub is_empty : Dqueue → Bool
is_empty d = elim d.front [ none ↦ true | some p ↦ false ]

unfoldable pub push_front : ℕ → Dqueue → Dqueue
push_front n d = elim d.front [
  | some f ↦ record d {
    front = some n;
    prev = update f (some n) (update n none d.prev);
    next = update n (some f) d.next;
  }
  | none ↦ record d {
    front = some n;
    back = some n;
    prev = update n none d.prev;
    next = update n none d.next;
  }
]

unfoldable pub push_back : ℕ → Dqueue → Dqueue
push_back n d = elim d.back [
  | some b ↦ record d {
    back = some n;
    prev = update n (some b) d.prev;
    next = update b (some n) (update n none d.next);
  }
  | none ↦ record d {
    front = some n;
    back = some n;
    prev = update n none d.prev;
    next = update n none d.next;
  }
]

-- The last two writes of a removal.
abbrev unlink : ℕ → Dqueue → Dqueue
unlink n d = record d { prev = update n none d.prev; next = update n none d.next }

unfoldable pub pop_back : Dqueue → Dqueue × Option ℕ
pop_back d = elim d.back [
  | none ↦ (d, none)
  | some n ↦ (
    elim (d.prev n) [
      | some b ↦ unlink n (record d { back = some b; next = update b none d.next })
      | none ↦ unlink n (record d { back = none; front = none })
    ],
    some n,
  )
]

unfoldable pub pop_front : Dqueue → Dqueue × Option ℕ
pop_front d = elim d.front [
  | none ↦ (d, none)
  | some n ↦ (
    elim (d.next n) [
      | some f ↦ unlink n (record d { front = some f; prev = update f none d.prev })
      | none ↦ unlink n (record d { back = none; front = none })
    ],
    some n,
  )
]

unfoldable pub is_node_in_queue : ℕ → Dqueue → Bool
is_node_in_queue n d = is_some (d.prev n) || (is_some (d.next n) || points_to d.front n)

-- none is the dereference of the previous node of an object that has none.
unfoldable pub insert : ℕ → ℕ → Dqueue → Option Dqueue
unfolding push_front
insert n o d = if points_to d.front o then some (push_front n d) else elim (d.prev o) [
  | none ↦ none
  | some p ↦ some (record d {
    next = update p (some n) (update n (some o) d.next);
    prev = update o (some n) (update n (some p) d.prev);
  })
]

unfoldable pub erase : ℕ → Dqueue → Dqueue × Option ℕ
erase n d = elim (d.prev n) [
  | some p ↦ elim (d.next n) [
    | some q ↦ (
      unlink n (record d { next = update p (some q) d.next; prev = update q (some p) d.prev }),
      some q,
    )
    | none ↦ (unlink n (record d { back = some p; next = update p none d.next }), none)
  ]
  | none ↦ elim (d.next n) [
    | some q ↦ (unlink n (record d { front = some q; prev = update q none d.prev }), some q)
    | none ↦ (if points_to d.front n then record d { front = none; back = none } else d, none)
  ]
]

-- GetAt's loop with `i` steps left; none outside is a dereference of NULL.
unfoldable pub get_at_from : Dqueue → ℕ → Option ℕ → Option (Option ℕ)
get_at_from d zero at = some at
get_at_from d (suc i) none = none
get_at_from d (suc i) (some p) = elim (d.next p) [
  | none ↦ some none
  | some q ↦ get_at_from d i (some q)
]

unfoldable pub get_at : Dqueue → ℕ → Option (Option ℕ)
unfolding get_at_from
get_at d index = get_at_from d index d.front

-- Size's loop, a size_t counted up to the NULL behind the last node; none is the end of the fuel.
unfoldable pub size_from : ℕ → Dqueue → ℕ → Option ℕ → Option ℕ
size_from zero d n at = none
size_from (suc fuel) d n none = some n
size_from (suc fuel) d n (some p) = size_from fuel d ((n + 1) % 2 ^ 64) (d.next p)

unfoldable pub size : ℕ → Dqueue → Option ℕ
unfolding size_from
size fuel d = size_from fuel d 0 d.front
