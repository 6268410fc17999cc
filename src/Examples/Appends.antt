-- ===== src/Examples/Appends.antt =====
-- A table of appended records with pages of four, whose first page is full and stored.
use vorder.Base.{refl, some, none, [], ◌∷◌, if◌then◌else◌, ◌==◌, arith}
use vorder.Storage.Cache.{find}
use vorder.Storage.Cache.View.{view, cached_dirty}
use vorder.Storage.Append.{AppendTable, open_table, append}
use vorder.Storage.Append.Shows.{IsAppending, Appends}
use vorder.Storage.Append.Consecutive.{append-Appends}
use vorder.Storage.PageStore.{PageStore}
use vorder.Vbfs.Raw.{index_size}
use vorder.Vbfs.PageTable.{PageTable, read_page}
use vorder.Vbfs.Store.{store_read, IsHolding}
use vorder.Vbfs.Store.Held.{held_read, raw_store}
use vorder.Examples.Volumes.{fresh, fresh-IsVolume}
use vorder.Examples.Data.{page_store, number_codec}

abbrev transactions : AppendTable page_store.State
unfolding page_store open_table
transactions =
    open_table (record { pages = []; map_page_num = 0; max_page_cache_num = 2 })
      (record { page_size = 4; record_len = 1; page_record_num = 4 }) 4 4
      (λ i. if i == 0 then some (5 ∷ 6 ∷ 7 ∷ 8 ∷ []) else none)

-- A table with two records of one byte to a page, on a raw device without files.
abbrev device_pages : PageTable
device_pages = record { table_type = 1; page_size = 2; file_page_num = 4 }

abbrev device_store : PageStore
device_store = raw_store device_pages (omega arith) (omega arith)

empty-IsHolding : IsHolding device_pages (fresh 3)
unfolding index_size
empty-IsHolding = record {
  valid = fresh-IsVolume 3 (omega arith);
  addressable = record { below = omega arith };
  paged = record { some_page = omega arith; some_byte = omega arith; fits = omega arith };
}

abbrev on_device : AppendTable device_store.State
unfolding raw_store open_table
on_device =
    open_table (record { pages = []; map_page_num = 0; max_page_cache_num = 2 })
      (record { page_size = 2; record_len = 1; page_record_num = 2 }) 0 0
      (record { volume = fresh 3; holding = empty-IsHolding })

on_device-IsAppending : IsAppending device_store on_device
unfolding on_device raw_store view find cached_dirty open_table store_read held_read read_page
on_device-IsAppending = record {
  coherent = record { distinct = tt; clean = λ i p e d. absurd (ground arith) };
  sized = λ i c e. device_store.read_size on_device.store i c e;
  laid_out = record { some_record = omega arith; fits = omega arith };
  page_size_eq = refl;
  current = λ p e. absurd (ground arith);
  unseen = λ i e. ground arith;
}

append-device_store :
    Appends device_store number_codec on_device 9
      (append device_store number_codec (0 ∷ 0 ∷ []) 9 on_device).0
unfolding on_device raw_store number_codec open_table append
append-device_store =
    append-Appends device_store number_codec on_device 9 on_device-IsAppending (0 ∷ 0 ∷ []) refl
      refl (omega arith) refl
