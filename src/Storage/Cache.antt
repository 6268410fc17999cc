-- ===== src/Storage/Cache.antt =====
-- vbh_record_table.{h,inl,cpp}: the page cache of CVbhRecordTable. The queue m_queuePage and the map
-- m_mapPage hold the same pages: both are the list `pages`, the least active page first, searched by
-- page id. A page pointer is the id of a cached page. Memory comes from an allocator outside the
-- repository: a new page's buffer is an argument. `read` is the virtual function ReadPage.
pub mod Pages
pub mod View
pub mod Old
use vorder.Base.{
  ℕ, ◌+◌, ◌-◌, ◌*◌, ◌/◌, ◌%◌, ◌^◌, Bool, true, false, Option, none, some, List, [], ◌∷◌, ◌++◌, ltb,
  if◌then◌else◌, ◌==◌,
}

pub record Page : Type 0 where
  pub is_new : Bool
  pub is_dirty : Bool
  pub content : List ℕ
  pub page_id : ℕ

-- The constants that Open fixes.
pub record Layout : Type 0 where
  pub page_size : ℕ
  pub record_len : ℕ
  pub page_record_num : ℕ

pub record Cache : Type 0 where
  pub pages : List Page
  pub map_page_num : ℕ
  pub max_page_cache_num : ℕ

-- EN_STEP_ENLARGE_CACHE_PAGE_NUM
abbrev step_enlarge_cache_page_num : ℕ
step_enlarge_cache_page_num = 64

-- ++ and -- on ACE_UINT32.
inc32 : ℕ → ℕ
inc32 n = (n + 1) % 2 ^ 32

dec32 : ℕ → ℕ
dec32 n = (n + 2 ^ 32 - 1) % 2 ^ 32

unfoldable pub get_page_id : Layout → ℕ → ℕ
get_page_id l record_id = record_id / l.page_record_num

unfoldable pub get_offset : Layout → ℕ → ℕ
get_offset l record_id = (record_id % l.page_record_num) * l.record_len

unfoldable pub find : ℕ → List Page → Option Page
find i [] = none
find i (p ∷ ps) = if p.page_id == i then some p else find i ps

unfoldable pub erase : ℕ → List Page → List Page
erase i [] = []
erase i (p ∷ ps) = if p.page_id == i then ps else p ∷ erase i ps

-- A write through a page pointer.
unfoldable pub set_page : Page → List Page → List Page
set_page q [] = []
set_page q (p ∷ ps) = if p.page_id == q.page_id then q ∷ ps else p ∷ set_page q ps

-- The least active page that is not dirty.
unfoldable pub first_clean : List Page → Option Page
first_clean [] = none
first_clean (p ∷ ps) = if p.is_dirty then first_clean ps else some p

-- Takes a page out of the queue and the map.
unfoldable pub release_page : ℕ → Cache → Cache
unfolding dec32 erase
release_page i c = record c { pages = erase i c.pages; map_page_num = dec32 c.map_page_num }

enlarge : Cache → Cache
enlarge c = record c {
  max_page_cache_num = (c.max_page_cache_num + step_enlarge_cache_page_num) % 2 ^ 32;
}

-- The page object that GetPage will fill: a clean page taken out of a full cache, with the new-page
-- flag that it had, or a newly allocated one.
take_page : Cache → Cache × Bool
unfolding release_page enlarge first_clean
take_page c =
    if ltb c.max_page_cache_num c.map_page_num
    then elim (first_clean c.pages) [
      | some q ↦ (release_page q.page_id c, q.is_new)
      | none ↦ (enlarge c, false)
    ]
    else (c, false)

-- Puts a page at the active end of the queue, and into the map.
push_page : Page → Cache → Cache
unfolding inc32
push_page p c = record c { pages = c.pages ++ p ∷ []; map_page_num = inc32 c.map_page_num }

load_page : ℕ → Option (List ℕ) → Cache × Bool → Cache × Option Page
unfolding push_page
load_page i none (c, is_new) = (c, none)
load_page i (some content) (c, is_new) = (push_page p c, some p)
  where
    p : Page
    p = record { is_new = is_new; is_dirty = false; content = content; page_id = i }

unfoldable pub get_page : (ℕ → Option (List ℕ)) → ℕ → Cache → Cache × Option Page
unfolding find erase take_page load_page
get_page read i c = elim (find i c.pages) [
  | some p ↦ (record c { pages = erase i c.pages ++ p ∷ [] }, some p)
  | none ↦ load_page i (read i) (take_page c)
]

-- Drops the least active clean page of a full cache, or lets the cache grow.
make_room : Cache → Cache
unfolding release_page enlarge first_clean
make_room c =
    if ltb c.max_page_cache_num c.map_page_num
    then elim (first_clean c.pages) [ some q ↦ release_page q.page_id c | none ↦ enlarge c ]
    else c

unfoldable pub insert_page : Page → Cache → Cache
unfolding make_room push_page
insert_page p c = push_page p (make_room c)
