-- ===== src/Order/Cps/Versions.antt =====
-- The version table of the block service is CVbhMultiUpdateTable: `m_wsVersionTable` of
-- order_base_channel_process_service.h.
use vorder.Base.{
  ℕ, refl, Bool, true, false, Option, none, some, List, [], ◌∷◌, length, length-append, arith,
}
use vorder.Storage.PageStore.{PageStore}
use vorder.Storage.Record.{HostCodec}
use vorder.Storage.MultiUpdate
use vorder.Storage.MultiUpdate.{Table, Package, CodecPage, LogCodec, Saved}
use vorder.Order.Cps.{VersionTable}

module _ (ps : PageStore) (versions : HostCodec ℕ) (log : LogCodec)
    (order : Package → List CodecPage) (blank : List ℕ) (resized : Bool) where
  unfoldable save : Table ps.State → Option (Table ps.State × Bool)
  unfolding MultiUpdate.save_to_log
  save t =
      let (u, r) = MultiUpdate.save_to_log ps log order resized t in
      elim r [ Saved.saved ↦ some (u, true) | Saved.failed ↦ some (u, false) | Saved.fault ↦ none ]

  -- The interface, filled: `blank` is the memory of a new page, `resized` whether the log file can be
  -- resized.
  unfoldable pub table_of_versions : VersionTable
  unfolding MultiUpdate.read MultiUpdate.update MultiUpdate.append MultiUpdate.append_page
      MultiUpdate.pack_modify MultiUpdate.rollback_unpack_cache MultiUpdate.committe_transaction
      MultiUpdate.save_to_log MultiUpdate.save_pages MultiUpdate.persistence MultiUpdate.redo_by_log
      save MultiUpdate.edit_page
  table_of_versions = record {
    Table = Table ps.State;
    read = MultiUpdate.read ps versions;
    update = MultiUpdate.update ps versions;
    append = MultiUpdate.append ps versions blank;
    pack_modify = MultiUpdate.pack_modify ps;
    rollback_unpack_cache = MultiUpdate.rollback_unpack_cache ps;
    committe_transaction = MultiUpdate.committe_transaction ps;
    save_to_log = save;
    persistence = MultiUpdate.persistence ps log order;
    redo_by_log = MultiUpdate.redo_by_log ps log order;
    package_num = λ t. length t.packages;
    package_num-read = λ i t. refl;
    package_num-update = λ i v t. ground arith;
    package_num-append = λ i v t. ground arith;
    package_num-pack = λ t. ground (
      arith,
      length-append t.packages ((MultiUpdate.pack_pages ps t.cur_dirty ([], t.cache.pages)).0 ∷ []),
    );
    package_num-rollback = λ t. refl;
    package_num-committe = λ t. ground arith;
    package_num-save = λ t u b h. ground arith;
    package_num-persistence = λ t. ground arith;
  }
