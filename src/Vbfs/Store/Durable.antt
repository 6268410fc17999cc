-- ===== src/Vbfs/Store/Durable.antt =====
-- Pages across a restart: Open rebuilds the map of the files from the device.
use vorder.Base.{ℕ, ◌/◌, ◌^◌, ◌<◌, ◌≡◌, ◌≢◌, sym, ◌∙◌, Bool, true, some, List, length}
use vorder.Vbfs.Raw.{RawVbfs, open_raw, ready}
use vorder.Vbfs.Raw.Reopen.{open_raw-IsVolume}
use vorder.Vbfs.PageTable.{PageTable, get_file_id, get_offset}
use vorder.Vbfs.Store.{store_page, store_read, IsHolding}
use vorder.Vbfs.Store.Reads.{read_at, store_read_lem}
use vorder.Vbfs.Store.Writes.{store_page-IsHolding, store_page-Stores}

-- Open on the device of a volume with a free file: every page reads as it did.
open_raw-store_read :
    (p : PageTable) (v : RawVbfs)
    → IsHolding p v
    → v.start_free_phy_file_idx < v.param.file_num
    → (w : RawVbfs) × (open_raw v.device v.param ≡ ready w)
      × ((i : ℕ) → store_read p i w ≡ store_read p i v)
unfolding read_at
open_raw-store_read p v h room =
    let (w, o, valid, start, same) = open_raw-IsVolume v h.valid room in
    (
      w,
      o,
      λ i.
          store_read_lem p i w
          ∙ (same p.table_type (get_file_id p i)).1 p.page_size (get_offset p i)
          ∙ sym (store_read_lem p i v),
    )

-- A WritePage or WriteNewPage that succeeds on a well-formed raw device that holds a table, for a
-- page of the table's size whose file id fits into 32 bits, after which the device still has a free
-- file: the device is well-formed after it, and Open on it succeeds and gives a device from which the
-- page reads as written, and every other such page that could be read before the write reads as then.
pub open_raw-store_page :
    (p : PageTable) (is_new : Bool) (i : ℕ) (c : List ℕ) (v : RawVbfs)
    → 0 < p.table_type
    → p.table_type < 8
    → IsHolding p v
    → length c ≡ p.page_size
    → i / p.file_page_num < 2 ^ 32
    → (store_page p is_new i c v).1 ≡ true
    → (store_page p is_new i c v).0.start_free_phy_file_idx
      < (store_page p is_new i c v).0.param.file_num
    → let w = (store_page p is_new i c v).0 in
      IsHolding p w
      × (u : RawVbfs) × (open_raw w.device w.param ≡ ready u)
      × (store_read p i u ≡ some c)
      × ((j : ℕ) (d : List ℕ)
          → i ≢ j
          → j / p.file_page_num < 2 ^ 32
          → store_read p j v ≡ some d
          → store_read p j u ≡ some d)
open_raw-store_page p is_new i c v low high h n small done room =
    let w = (store_page p is_new i c v).0 in
    let held = store_page-IsHolding p low high is_new i c v n h in
    let stores = store_page-Stores p low high is_new i c v h n small done in
    let (u, o, same) = open_raw-store_read p w held room in
    (
      held,
      u,
      o,
      same i ∙ store_read_lem p i w ∙ stores.read_back,
      λ j d ne k e.
          same j ∙ store_read_lem p j w ∙ stores.others j d ne k (sym (store_read_lem p j v) ∙ e),
    )
