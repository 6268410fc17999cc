-- ===== src/Dqueue/Links.antt =====
-- What the links of a queue are, computed from the list of its nodes.
use vorder.Base.{
  ℕ, ◌≡◌, refl, Bool, true, false, ◌||◌, Option, none, some, List, [], ◌∷◌, ◌++◌, if◌then◌else◌,
  ◌==◌, arith,
}
use vorder.Dqueue.{Dqueue, points_to}

abbrev pub has : ℕ → List ℕ → Bool
has a [] = false
has a (x ∷ xs) = (x == a) || has a xs

abbrev pub Distinct : List ℕ → Type 0
Distinct [] = Unit {0}
Distinct (x ∷ xs) = (has x xs ≡ false) × Distinct xs

-- The first node, or what follows an empty list.
abbrev pub first_or : Option ℕ → List ℕ → Option ℕ
first_or s [] = s
first_or s (x ∷ xs) = some x

-- The last node, or what stands before an empty list.
abbrev pub last_or : Option ℕ → List ℕ → Option ℕ
last_or p [] = p
last_or p (x ∷ xs) = last_or (some x) xs

-- The node before `a` in a list behind `p`, and the one after it in a list in front of `s`.
unfoldable pub before : Option ℕ → ℕ → List ℕ → Option ℕ
before p a [] = none
before p a (x ∷ xs) = if x == a then p else before (some x) a xs

unfoldable pub after : Option ℕ → ℕ → List ℕ → Option ℕ
after s a [] = none
after s a (x ∷ xs) = if x == a then first_or s xs else after s a xs

-- The queue `d` links the distinct nodes `xs`, in this order, and no object outside has a link.
pub record IsQueue (xs : List ℕ) (d : Dqueue) : Type 0 where
  pub distinct : Distinct xs
  pub front_eq : d.front ≡ first_or none xs
  pub back_eq : d.back ≡ last_or none xs
  pub prev_eq : (a : ℕ) → d.prev a ≡ before none a xs
  pub next_eq : (a : ℕ) → d.next a ≡ after none a xs

pub has-append : (a : ℕ) (xs ys : List ℕ) → has a (xs ++ ys) ≡ (has a xs || has a ys)
has-append a [] ys = refl
has-append a (x ∷ xs) ys = ground (arith, has-append a xs ys)

pub before-append :
    (p : Option ℕ) (a : ℕ) (xs ys : List ℕ)
    → before p a (xs ++ ys) ≡ (if has a xs then before p a xs else before (last_or p xs) a ys)
unfolding before
before-append p a [] ys = refl
before-append p a (x ∷ xs) ys = ground (arith, before-append (some x) a xs ys)

first_or-append :
    (s : Option ℕ) (xs ys : List ℕ) → first_or s (xs ++ ys) ≡ first_or (first_or s ys) xs
first_or-append s [] ys = refl
first_or-append s (x ∷ xs) ys = refl

pub after-append :
    (s : Option ℕ) (a : ℕ) (xs ys : List ℕ)
    → after s a (xs ++ ys) ≡ (if has a xs then after (first_or s ys) a xs else after s a ys)
unfolding after
after-append s a [] ys = refl
after-append s a (x ∷ xs) ys = ground (arith, after-append s a xs ys, first_or-append s xs ys)

pub before_absent : (p : Option ℕ) (a : ℕ) (xs : List ℕ) → has a xs ≡ false → before p a xs ≡ none
unfolding before
before_absent p a [] h = refl
before_absent p a (x ∷ xs) h = ground (arith, before_absent (some x) a xs)

pub after_absent : (s : Option ℕ) (a : ℕ) (xs : List ℕ) → has a xs ≡ false → after s a xs ≡ none
unfolding after
after_absent s a [] h = refl
after_absent s a (x ∷ xs) h = ground (arith, after_absent s a xs)

pub last_or-append :
    (p : Option ℕ) (xs ys : List ℕ) → last_or p (xs ++ ys) ≡ last_or (last_or p xs) ys
last_or-append p [] ys = refl
last_or-append p (x ∷ xs) ys = last_or-append (some x) xs ys

pub has_last :
    (a x : ℕ) (xs : List ℕ) → points_to (last_or (some x) xs) a ≡ true → has a (x ∷ xs) ≡ true
has_last a x [] h = ground arith
has_last a x (y ∷ xs) h = ground (arith, has_last a y xs)

pub has_first : (a : ℕ) (xs : List ℕ) → points_to (first_or none xs) a ≡ true → has a xs ≡ true
has_first a [] h = cc
has_first a (x ∷ xs) h = ground arith

-- What follows the list shows only in the link of its last node.
pub after_last :
    (s : Option ℕ) (a : ℕ) (xs : List ℕ)
    → Distinct xs
    → after s a xs ≡ (if points_to (last_or none xs) a then s else after none a xs)
unfolding after
after_last s a [] d = refl
after_last s a (x ∷ []) d = ground arith
after_last s a (x ∷ y ∷ xs) d = ground (arith, after_last s a (y ∷ xs) d.1, has_last a y xs)

-- What stands before the list shows only in the link of its first node.
pub before_first :
    (p : Option ℕ) (a : ℕ) (xs : List ℕ)
    → before p a xs ≡ (if points_to (first_or none xs) a then p else before none a xs)
unfolding before
before_first p a [] = refl
before_first p a (x ∷ xs) = ground arith

pub Distinct-append :
    (xs ys : List ℕ)
    → Distinct xs
    → Distinct ys
    → ((a : ℕ) → has a xs ≡ true → has a ys ≡ false)
    → Distinct (xs ++ ys)
Distinct-append [] ys d e apart = e
Distinct-append (x ∷ xs) ys d e apart = (
  ground (arith, has-append x xs ys, apart x),
  Distinct-append xs ys d.1 e (λ a h. apart a (ground arith)),
)

pub Distinct-append_inv :
    (xs ys : List ℕ)
    → Distinct (xs ++ ys)
    → Distinct xs × Distinct ys × ((a : ℕ) → has a xs ≡ true → has a ys ≡ false)
Distinct-append_inv [] ys d = (tt, d, λ a h. absurd (cc))
Distinct-append_inv (x ∷ xs) ys d =
    let r = Distinct-append_inv xs ys d.1 in
    (
      (ground (arith, has-append x xs ys), r.0),
      r.1,
      λ a h. ground (arith, has-append x xs ys, r.2 a),
    )
