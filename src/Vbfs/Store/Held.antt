-- ===== src/Vbfs/Store/Held.antt =====
-- The page store of the tables, filled by the page table over a raw device.
use vorder.Base.{
  refl, ◌==◌, ==_iff, length, false, ℕ, ◌/◌, ◌^◌, ◌<◌, ◌≡◌, sym, ◌∙◌, inl, inr, Bool, true, false,
  Option, none, some, List, if◌then◌else◌, ltb, length, arith, Bool-cases, ltb→lt,
}
use vorder.Storage.PageStore.{PageStore}
use vorder.Vbfs.Raw.{RawVbfs}
use vorder.Vbfs.PageTable.{PageTable}
use vorder.Vbfs.Store.{store_page, store_read, IsHolding}
use vorder.Vbfs.Store.Reads.{read_at, store_read_lem, read_at-length}
use vorder.Vbfs.Store.Writes.{Stores, store_page-IsHolding, store_page-Stores}

module _ (p : PageTable) (low : 0 < p.table_type) (high : p.table_type < 8) where
  -- The page table with its device as a page store, for the pages whose file ids fit into 32 bits.
  pub record Held : Type 0 where
    pub volume : RawVbfs
    pub holding : IsHolding p volume

  unfoldable pub held_read : Held → ℕ → Option (List ℕ)
  unfolding store_read
  held_read s i = if ltb (i / p.file_page_num) (2 ^ 32) then store_read p i s.volume else none

  unfoldable pub held_put :
      (is_new : Bool) (i : ℕ) (c : List ℕ) (s : Held) (r : Bool)
      → (length c == p.page_size) ≡ r
      → Held × Bool
  unfolding store_page
  held_put is_new i c s true e = (
    record {
      volume = (store_page p is_new i c s.volume).0;
      holding =
          store_page-IsHolding p low high is_new i c s.volume ((==_iff (length c) p.page_size).0 e)
            s.holding;
    },
    (store_page p is_new i c s.volume).1,
  )
  held_put is_new i c s false e = (s, false)

  pub held_put-Stores :
      (is_new : Bool) (i : ℕ) (c : List ℕ) (s : Held) (r : Bool) (e : (length c == p.page_size) ≡ r)
      → length c ≡ p.page_size
      → i / p.file_page_num < 2 ^ 32
      → (held_put is_new i c s r e).1 ≡ true
      → Stores p low high i c s.volume (held_put is_new i c s r e).0.volume
  unfolding held_put
  held_put-Stores is_new i c s true e n small done =
      store_page-Stores p low high is_new i c s.volume s.holding n small done
  held_put-Stores is_new i c s false e n small done = absurd (cc)

  -- A page's memory has the size of a page.
  unfoldable pub held_write : Bool → ℕ → List ℕ → Held → Held × Bool
  unfolding held_put
  held_write is_new i c s =
      if ltb (i / p.file_page_num) (2 ^ 32)
      then held_put is_new i c s (length c == p.page_size) refl
      else (s, false)

  pub held_read_lem :
      (s : Held) (i : ℕ) (c : List ℕ)
      → held_read s i ≡ some c
      → (i / p.file_page_num < 2 ^ 32) × (read_at p s.volume i ≡ some c)
  unfolding held_read
  held_read_lem s i c e =
      let same = store_read_lem p i s.volume in
      elim (Bool-cases (ltb (i / p.file_page_num) (2 ^ 32))) [
        | inr large ↦ absurd (ground (arith, large))
        | inl small ↦
            (ltb→lt (i / p.file_page_num) (2 ^ 32) small, sym same ∙ ground (arith, small, e))
      ]

  pub held_read_small :
      (s : Held) (i : ℕ) (c : List ℕ)
      → i / p.file_page_num < 2 ^ 32
      → read_at p s.volume i ≡ some c
      → held_read s i ≡ some c
  unfolding held_read
  held_read_small s i c small e =
      let same = store_read_lem p i s.volume in
      let fits : ltb (i / p.file_page_num) (2 ^ 32) ≡ true = ground arith in
      ground (arith, fits, same ∙ e)

  pub held_write_lem :
      (is_new : Bool) (i : ℕ) (c : List ℕ) (s : Held)
      → length c ≡ p.page_size
      → (held_write is_new i c s).1 ≡ true
      → (i / p.file_page_num < 2 ^ 32)
        × Stores p low high i c s.volume (held_write is_new i c s).0.volume
  unfolding held_write
  held_write_lem is_new i c s n done = elim (Bool-cases (ltb (i / p.file_page_num) (2 ^ 32))) [
    | inr large ↦ absurd (ground (arith, large))
    | inl hit ↦
        let small = ltb→lt (i / p.file_page_num) (2 ^ 32) hit in
        (
          small,
          rw (hit, held_write)
              (held_put-Stores is_new i c s (length c == p.page_size) refl n small
                (ground (arith, hit, done))),
        )
  ]

  -- The laws of the tables' page store hold of the page table.
  unfoldable pub raw_store : PageStore
  unfolding held_read held_write
  raw_store = record {
    State = Held;
    page_size = p.page_size;
    read_page = held_read;
    write_page = held_write;
    read_size = λ s i c e. read_at-length p i s.volume c (held_read_lem s i c e).1;
    write_read = λ s b i c n done.
        let (small, w) = held_write_lem b i c s n done in
        held_read_small (held_write b i c s).0 i c small w.read_back;
    write_keeps = λ s b i j c d n done ne e.
        let (small, w) = held_write_lem b i c s n done in
        let (at, f) = held_read_lem s j d e in
        held_read_small (held_write b i c s).0 j d at (w.others j d ne at f);
  }
