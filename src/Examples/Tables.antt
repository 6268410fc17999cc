-- ===== src/Examples/Tables.antt =====
-- A version table of four records to a page, over a store of one page.
use vorder.Base.{
  ℕ, suc, ◌≡◌, ◌≢◌, refl, true, false, some, none, List, [], ◌∷◌, length, replicate, splice, arith,
  if◌then◌else◌, ◌==◌,
}
use vorder.Storage.Cache.{Cache, Layout, get_page, find, get_page_id}
use vorder.Storage.Cache.View.{view, cached_dirty, Gets, get_page-Gets}
use vorder.Storage.Record.{IsLayout}
use vorder.Storage.MultiUpdate.{
  read_page, Table, Package, CodecPage, Saved, find_codec, read, update, append_page, pack_modify,
  rollback_unpack_cache, committe_transaction, persistence, save_to_log, redo_by_log,
}
use vorder.Storage.MultiUpdate.View.{has, IsTable, backing, content}
use vorder.Storage.MultiUpdate.Edit.{read-update, update_some, append_page-Shows, Shows, written}
use vorder.Storage.MultiUpdate.Pack.{pack_modify-keeps, rollback-shows_backing}
use vorder.Storage.MultiUpdate.Persist.{IsOrder, committe-persistence}
use vorder.Storage.MultiUpdate.Log.{redo_by_log-recovers, save_to_log_retry}
use vorder.Examples.Data.{page_store, number_codec, page_codec}

abbrev four : Layout
four = record { page_size = 4; record_len = 1; page_record_num = 4 }

abbrev old_page : List ℕ
old_page = 5 ∷ 6 ∷ 7 ∷ 8 ∷ []

abbrev empty_cache : Cache
empty_cache = record { pages = []; map_page_num = 0; max_page_cache_num = 2 }

abbrev table : Table page_store.State
unfolding page_store
table = record {
  cache = empty_cache;
  layout = four;
  packages = [];
  cur_dirty = [];
  log_file = replicate 20 0;
  log_open = true;
  log_filesize = 20;
  store = λ i. if i == 0 then some old_page else none;
}

four-IsLayout : IsLayout four
four-IsLayout = record { some_record = omega arith; fits = omega arith }

table-IsTable : IsTable page_store table
unfolding table page_store view find read_page has cached_dirty
table-IsTable = record {
  coherent = record { distinct = tt; clean = λ i p e d. absurd (ground arith) };
  dirty = λ i. refl;
  sized = λ i c e. page_store.read_size table.store i c e;
  packed_sized = λ i c e. page_store.read_size table.store i c e;
  packages_ok = tt;
  laid_out = four-IsLayout;
  page_size_eq = refl;
}

same_order : Package → List CodecPage
same_order m = m

same_order-IsOrder : IsOrder same_order
unfolding same_order
same_order-IsOrder = record { keeps = λ n m h. h; same = λ n m j h. refl }

read-update_example :
    ((read page_store number_codec 2 (update page_store number_codec 2 9 table).0).1 ≡ some 9)
    × (◌≢◌ {A = ℕ} 2 3
        → (read page_store number_codec 3 (update page_store number_codec 2 9 table).0).1
          ≡ (read page_store number_codec 3 table).1)
unfolding table page_store number_codec update
read-update_example = read-update page_store number_codec 2 3 9 table table-IsTable refl refl

abbrev edited : Table page_store.State
edited = (update page_store number_codec 2 9 table).0

edited-IsTable : IsTable page_store edited
unfolding table page_store view find read_page get_page_id
edited-IsTable = (update_some page_store number_codec 2 9 table old_page table-IsTable refl).1.table

pack_modify-keeps_example :
    IsTable page_store (pack_modify page_store edited)
    × ((j : ℕ) → content page_store (pack_modify page_store edited) j ≡ content page_store edited j)
    × ((j : ℕ) → backing page_store (pack_modify page_store edited) j ≡ content page_store edited j)
    × (length (pack_modify page_store edited).packages ≡ suc (length edited.packages))
    × ((pack_modify page_store edited).cur_dirty ≡ [])
pack_modify-keeps_example = pack_modify-keeps page_store edited edited-IsTable

rollback-shows_backing_example :
    IsTable page_store (rollback_unpack_cache page_store edited)
    × ((j : ℕ)
        → content page_store (rollback_unpack_cache page_store edited) j
          ≡ backing page_store edited j)
rollback-shows_backing_example = rollback-shows_backing page_store edited edited-IsTable

abbrev packed : Table page_store.State
packed = pack_modify page_store edited

abbrev one_page : Package
one_page = record { is_new = false; page_id = 0; page_data = 5 ∷ 6 ∷ 9 ∷ 8 ∷ [] } ∷ []

committe-persistence_example :
    let d =
      committe_transaction page_store (persistence page_store page_codec same_order packed).0 in
    IsTable page_store d
    × ((j : ℕ) (c : List ℕ)
        → content page_store packed j ≡ some c
        → content page_store d j ≡ some c)
    × (length packed.packages ≡ suc (length d.packages))
unfolding table splice page_store number_codec same_order pack_modify update persistence
committe-persistence_example =
    committe-persistence page_store same_order page_codec packed one_page same_order-IsOrder
      (pack_modify-keeps page_store edited edited-IsTable).0 ([], refl) refl

-- The store after a crash: the table's, and the log that was saved.
abbrev crashed : Table page_store.State
crashed = record table {
  log_file = (save_to_log page_store page_codec same_order true packed).0.log_file;
}

redo_by_log-recovers_example :
    ((q : CodecPage)
      → find_codec 0 one_page ≡ some q
      → page_store.read_page (redo_by_log page_store page_codec same_order crashed).0.store 0
        ≡ some q.page_data)
    × ((c : List ℕ)
        → find_codec 0 one_page ≡ none
        → page_store.read_page crashed.store 0 ≡ some c
        → page_store.read_page (redo_by_log page_store page_codec same_order crashed).0.store 0
          ≡ some c)
unfolding table splice page_store number_codec page_codec same_order pack_modify update save_to_log
    redo_by_log
redo_by_log-recovers_example =
    redo_by_log-recovers page_store same_order page_codec true packed crashed one_page 0
      same_order-IsOrder (refl, refl, tt) refl (omega arith) ([], refl) refl refl refl

abbrev short_log : Table page_store.State
short_log = record packed { log_file = []; log_filesize = 0; log_open = false }

save_to_log_retry_example :
    (save_to_log page_store page_codec same_order true
      (save_to_log page_store page_codec same_order false short_log).0).1
    ≡ Saved.fault
unfolding table splice page_store number_codec page_codec same_order pack_modify update save_to_log
save_to_log_retry_example = save_to_log_retry page_store same_order page_codec true short_log refl

get_page-Gets_example :
    Gets
      (page_store.read_page table.store)
      0
      empty_cache
      (get_page (page_store.read_page table.store) 0 empty_cache).0
      (get_page (page_store.read_page table.store) 0 empty_cache).1
unfolding find
get_page-Gets_example =
    get_page-Gets (page_store.read_page table.store) 0 empty_cache
      (record { distinct = tt; clean = λ i p e d. absurd (ground arith) })

append_page-Shows_example :
    Shows page_store
      (append_page page_store number_codec old_page 8 3 table)
      (written page_store number_codec 8 3 old_page table)
      table
unfolding table page_store find
append_page-Shows_example =
    append_page-Shows page_store number_codec old_page 8 3 table table-IsTable refl refl
