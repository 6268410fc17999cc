-- ===== src/Examples/Updates.antt =====
-- A table of records changed in place, over a store of one page of four records.
use vorder.Base.{◌≡◌, refl, true, some, none, [], ◌∷◌, if◌then◌else◌, ◌==◌, arith}
use vorder.Storage.Cache.{find}
use vorder.Storage.Cache.View.{view, cached_dirty}
use vorder.Storage.MultiUpdate.View.{has}
use vorder.Storage.Update.{UpdateTable, rollback_cache}
use vorder.Storage.Update.Undo.{undo}
use vorder.Storage.Update.Rollback.{content, IsChanging}
use vorder.Storage.Update.Run.{updates, updated, rollback_cache-updates}
use vorder.Examples.Data.{page_store, number_codec}

abbrev users : UpdateTable page_store.State
unfolding page_store
users = record {
  cache = record { pages = []; map_page_num = 0; max_page_cache_num = 2 };
  layout = record { page_size = 4; record_len = 1; page_record_num = 4 };
  update_log = [];
  dirty_pages = [];
  log_file = [];
  log_open = true;
  log_filesize = 0;
  store = λ i. if i == 0 then some (5 ∷ 6 ∷ 7 ∷ 8 ∷ []) else none;
}

users-IsChanging : IsChanging page_store users
unfolding users page_store view find cached_dirty has undo
users-IsChanging = record {
  coherent = record { distinct = tt; clean = λ i p e d. absurd (ground arith) };
  dirty = λ i. refl;
  old = λ i p e. absurd (ground arith);
  items = tt;
  laid_out = record { some_record = omega arith; fits = omega arith };
  undone = λ i c e. e;
  missing = λ i e. e;
}

rollback_cache-updates_example :
    content page_store
      (rollback_cache page_store (updates page_store number_codec ((2, 9) ∷ (3, 4) ∷ []) users))
      0
    ≡ content page_store users 0
unfolding users page_store number_codec updated
rollback_cache-updates_example =
    rollback_cache-updates page_store number_codec ((2, 9) ∷ (3, 4) ∷ []) users (omega arith)
      (refl, (refl, tt)) users-IsChanging refl 0
