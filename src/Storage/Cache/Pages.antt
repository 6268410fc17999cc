-- ===== src/Storage/Cache/Pages.antt =====
-- Searching a list of pages after a page is erased, added at the end, or written.
use vorder.Base.{
  ℕ, ◌≡◌, refl, ◌≢◌, false, none, some, List, [], ◌∷◌, ◌++◌, if◌then◌else◌, ◌==◌, arith,
}
use vorder.Storage.Cache.{Page, find, erase, set_page, first_clean}

-- No two pages have one id.
abbrev pub Distinct : List Page → Type 0
Distinct [] = Unit {0}
Distinct (p ∷ ps) = (find p.page_id ps ≡ none) × Distinct ps

pub find-page_id : (i : ℕ) (ps : List Page) (p : Page) → find i ps ≡ some p → p.page_id ≡ i
unfolding find
find-page_id i [] p h = cc
find-page_id i (q ∷ ps) p h = ground (arith, find-page_id i ps p)

pub find-erase_ne : (i j : ℕ) (ps : List Page) → i ≢ j → find j (erase i ps) ≡ find j ps
unfolding find erase
find-erase_ne i j [] h = refl
find-erase_ne i j (p ∷ ps) h = ground (arith, find-erase_ne i j ps)

pub find-erase_self : (i : ℕ) (ps : List Page) → Distinct ps → find i (erase i ps) ≡ none
unfolding find erase
find-erase_self i [] d = refl
find-erase_self i (p ∷ ps) d = ground (arith, find-erase_self i ps)

pub find-append :
    (j : ℕ) (ps : List Page) (p : Page)
    → find j (ps ++ p ∷ [])
      ≡ elim (find j ps) [ some q ↦ some q | none ↦ if p.page_id == j then some p else none ]
unfolding find
find-append j [] p = refl
find-append j (q ∷ ps) p = ground (arith, find-append j ps p)

pub find-set_page :
    (j : ℕ) (q : Page) (ps : List Page)
    → find j (set_page q ps)
      ≡ elim (find j ps) [ some p ↦ if q.page_id == j then some q else some p | none ↦ none ]
unfolding find set_page
find-set_page j q [] = refl
find-set_page j q (p ∷ ps) = ground (arith, find-set_page j q ps)

pub Distinct-erase : (i : ℕ) (ps : List Page) → Distinct ps → Distinct (erase i ps)
unfolding erase
Distinct-erase i [] d = tt
Distinct-erase i (p ∷ ps) d = ground (arith, Distinct-erase i ps, find-erase_ne i p.page_id ps)

pub Distinct-append :
    (ps : List Page) (p : Page) → Distinct ps → find p.page_id ps ≡ none → Distinct (ps ++ p ∷ [])
unfolding find
Distinct-append [] p d h = (refl, tt)
Distinct-append (q ∷ ps) p d h = ground (arith, Distinct-append ps p, find-append q.page_id ps p)

pub Distinct-set_page : (q : Page) (ps : List Page) → Distinct ps → Distinct (set_page q ps)
unfolding set_page
Distinct-set_page q [] d = tt
Distinct-set_page q (p ∷ ps) d =
    ground (arith, Distinct-set_page q ps, find-set_page p.page_id q ps)

-- The victim is a cached page that is not dirty.
pub find-first_clean :
    (ps : List Page) (q : Page)
    → Distinct ps
    → first_clean ps ≡ some q
    → (find q.page_id ps ≡ some q) × (q.is_dirty ≡ false)
unfolding find first_clean
find-first_clean [] q d h = cc
find-first_clean (p ∷ ps) q d h = ground (arith, find-first_clean ps q)
