-- ===== src/Dqueue/Cut.antt =====
-- A node linked in between two lists of nodes, or cut out from between them: what the links become.
use vorder.Base.{ℕ, ◌≡◌, true, false, none, some, List, [], ◌∷◌, ◌++◌, if◌then◌else◌, ◌==◌, arith}
use vorder.Dqueue.{Dqueue, points_to}
use vorder.Dqueue.Links.{
  has, first_or, last_or, before, after, IsQueue, has-append, before-append, after-append,
  before_absent, after_absent, has_last, has_first, after_last, before_first, Distinct-append,
  Distinct-append_inv,
}

has-last_or : (a : ℕ) (xs : List ℕ) → points_to (last_or none xs) a ≡ true → has a xs ≡ true
has-last_or a [] h = cc
has-last_or a (x ∷ xs) h = has_last a x xs h

module _ (ys zs : List ℕ) (n : ℕ) (d e : Dqueue) where
  pub IsQueue-linked :
      IsQueue (ys ++ zs) d
      → has n (ys ++ zs) ≡ false
      → e.front ≡ first_or none (ys ++ n ∷ zs)
      → e.back ≡ last_or none (ys ++ n ∷ zs)
      → ((a : ℕ)
          → e.prev a ≡ (
              if n == a
              then last_or none ys
              else if points_to (first_or none zs) a
              then some n
              else d.prev a))
      → ((a : ℕ)
          → e.next a ≡ (
              if n == a
              then first_or none zs
              else if points_to (last_or none ys) a
              then some n
              else d.next a))
      → IsQueue (ys ++ n ∷ zs) e
  unfolding before after
  IsQueue-linked q out f b p s =
      let (dy, dz, apart) = Distinct-append_inv ys zs q.distinct in
      record {
        distinct =
            Distinct-append ys (n ∷ zs) dy (ground (arith, has-append n ys zs), dz)
              (λ a h. ground (arith, apart a, has-append n ys zs));
        front_eq = f;
        back_eq = b;
        prev_eq = λ a. ground (
          arith,
          p a,
          q.prev_eq a,
          has-append n ys zs,
          before-append none a ys (n ∷ zs),
          before-append none a ys zs,
          before_first (some n) a zs,
          before_first (last_or none ys) a zs,
          apart a,
          has_first a zs,
        );
        next_eq = λ a. ground (
          arith,
          s a,
          q.next_eq a,
          has-append n ys zs,
          after-append none a ys (n ∷ zs),
          after-append none a ys zs,
          after_last (some n) a ys dy,
          after_last (first_or none zs) a ys dy,
          apart a,
          has-last_or a ys,
        );
      }

  pub IsQueue-cut :
      IsQueue (ys ++ n ∷ zs) d
      → e.front ≡ first_or none (ys ++ zs)
      → e.back ≡ last_or none (ys ++ zs)
      → ((a : ℕ)
          → e.prev a ≡ (
              if n == a
              then none
              else if points_to (first_or none zs) a
              then last_or none ys
              else d.prev a))
      → ((a : ℕ)
          → e.next a ≡ (
              if n == a
              then none
              else if points_to (last_or none ys) a
              then first_or none zs
              else d.next a))
      → IsQueue (ys ++ zs) e
  unfolding before after
  IsQueue-cut q f b p s =
      let (dy, dz, apart) = Distinct-append_inv ys (n ∷ zs) q.distinct in
      record {
        distinct = Distinct-append ys zs dy dz.1 (λ a h. ground (arith, apart a));
        front_eq = f;
        back_eq = b;
        prev_eq = λ a. ground (
          arith,
          p a,
          q.prev_eq a,
          before-append none a ys (n ∷ zs),
          before-append none a ys zs,
          before_first (some n) a zs,
          before_first (last_or none ys) a zs,
          before_absent none a ys,
          before_absent (last_or none ys) a zs,
          apart a,
          has_first a zs,
        );
        next_eq = λ a. ground (
          arith,
          s a,
          q.next_eq a,
          after-append none a ys (n ∷ zs),
          after-append none a ys zs,
          after_last (some n) a ys dy,
          after_last (first_or none zs) a ys dy,
          after_absent (first_or none zs) a ys,
          after_absent none a zs,
          apart a,
          has-last_or a ys,
        );
      }
