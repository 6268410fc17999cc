-- ===== src/Storage/Append/Undone.antt =====
-- RollbackTransaction after a Persistence, with the log mapped from the control file as Open does.
use vorder.Base.{ℕ, ◌≡◌, ap, true, some, arith}
use vorder.Storage.PageStore.{PageStore}
use vorder.Storage.Append.{
  AppendTable, config_file, persistence, rollback_cache, rollback_transaction, read_log,
}

-- On a table whose counter is the one in the control file and whose log is mapped from that file,
-- RollbackTransaction changes nothing.
settled :
    {S : Type 0} (u : AppendTable S)
    → u.log_map ≡ config_file
    → u.last_record_id ≡ u.cfg_last
    → rollback_transaction u ≡ some u
unfolding rollback_cache
settled u m e =
    let r : rollback_cache u ≡ some u = ground (arith, e) in
    let back : read_log u ≡ u.cfg_last = ground (arith, m) in
    let same : some (record u { cfg_last = read_log u }) ≡ some u =
      ap (λ (k : ℕ). some (record u { cfg_last = k })) back in
    unfold rollback_transaction in ground (arith, r, same)

module _ (ps : PageStore) (t u : AppendTable ps.State) where
  -- With the log mapped from the control file, as Open maps it, a transaction that Persistence has
  -- stored is not taken back by RollbackTransaction: it leaves the table, its counter and the counter in
  -- the control file as Persistence left them.
  pub rollback_transaction-persistence :
      t.log_map ≡ config_file → persistence ps t ≡ some (u, true) → rollback_transaction u ≡ some u
  unfolding persistence
  rollback_transaction-persistence m e =
      let opened : u.log_map ≡ config_file = ground (arith, m) in
      let even : u.last_record_id ≡ u.cfg_last = ground arith in settled u opened even
