-- ===== src/Storage/MultiUpdate/View.antt =====
-- The content of each page as the table shows it, and the invariant of the table.
use vorder.Base.{
  ℕ, ◌≡◌, Bool, false, Option, none, some, List, [], ◌∷◌, ◌++◌, ◌||◌, ◌==◌, length, arith,
}
use vorder.Storage.PageStore.{PageStore}
use vorder.Storage.Cache.View.{view, cached_dirty, IsCoherent}
use vorder.Storage.Record.{IsLayout}
use vorder.Storage.MultiUpdate.{Table, read_page, Package, find_codec}

unfoldable pub has : ℕ → List ℕ → Bool
has i [] = false
has i (j ∷ js) = (j == i) || has i js

pub has-append : (i j : ℕ) (is : List ℕ) → has i (is ++ j ∷ []) ≡ (has i is || (j == i))
unfolding has
has-append i j [] = ground arith
has-append i j (k ∷ is) = ground (arith, has-append i j is)

-- The pages of a package have ids of their own, and the size `n`.
abbrev pub IsPackage : ℕ → Package → Type 0
IsPackage n [] = Unit {0}
IsPackage n (p ∷ m) = (find_codec p.page_id m ≡ none) × (length p.page_data ≡ n) × IsPackage n m

abbrev pub ArePackages : ℕ → List Package → Type 0
ArePackages n [] = Unit {0}
ArePackages n (m ∷ ms) = IsPackage n m × ArePackages n ms

pub ArePackages-append :
    (n : ℕ) (ms : List Package) (m : Package)
    → ArePackages n ms
    → IsPackage n m
    → ArePackages n (ms ++ m ∷ [])
ArePackages-append n [] m h k = (k, tt)
ArePackages-append n (l ∷ ms) m h k = (h.0, ArePackages-append n ms m h.1 k)

module _ (ps : PageStore) where
  -- What is behind the cache: the packed pages, then the store.
  abbrev pub backing : Table ps.State → ℕ → Option (List ℕ)
  backing t = read_page ps t.packages t.store

  -- What the table shows.
  abbrev pub content : Table ps.State → ℕ → Option (List ℕ)
  content t = view (backing t) t.cache.pages

  -- The pages of the cache are coherent with what is behind it, m_lstCurDirtyPage lists exactly the
  -- dirty ones, and every page has the size of a page.
  pub record IsTable (t : Table ps.State) : Type 0 where
    pub coherent : IsCoherent (backing t) t.cache.pages
    pub dirty : (i : ℕ) → has i t.cur_dirty ≡ cached_dirty i t.cache.pages
    pub sized : (i : ℕ) (c : List ℕ) → content t i ≡ some c → length c ≡ ps.page_size
    pub packed_sized : (i : ℕ) (c : List ℕ) → backing t i ≡ some c → length c ≡ ps.page_size
    pub packages_ok : ArePackages ps.page_size t.packages
    pub laid_out : IsLayout t.layout
    pub page_size_eq : t.layout.page_size ≡ ps.page_size
