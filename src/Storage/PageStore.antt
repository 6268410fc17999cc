-- ===== src/Storage/PageStore.antt =====
-- The interface of a table to its page store, CVbhPageTable (vbh_page_table.h): pages of one size,
-- read and written by page id. The laws are what the tables rely on.
use vorder.Base.{ℕ, ◌≡◌, ◌≢◌, Bool, true, Option, some, List, length}

pub record PageStore : Type 1 where
  pub State : Type 0
  pub page_size : ℕ
  pub read_page : State → ℕ → Option (List ℕ)
  -- The first argument tells a new page, the result whether the write succeeded.
  pub write_page : Bool → ℕ → List ℕ → State → State × Bool
  pub read_size : (s : State) (i : ℕ) (c : List ℕ) → read_page s i ≡ some c → length c ≡ page_size
  pub write_read :
      (s : State) (is_new : Bool) (i : ℕ) (c : List ℕ)
      → length c ≡ page_size
      → (write_page is_new i c s).1 ≡ true
      → read_page (write_page is_new i c s).0 i ≡ some c
  pub write_keeps :
      (s : State) (is_new : Bool) (i j : ℕ) (c d : List ℕ)
      → length c ≡ page_size
      → (write_page is_new i c s).1 ≡ true
      → i ≢ j
      → read_page s j ≡ some d
      → read_page (write_page is_new i c s).0 j ≡ some d
