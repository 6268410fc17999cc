-- ===== src/Order/Cps/Crash.antt =====
-- A stop at any point of PersistentBlockQueueHeader, and the start after it in OnInit, in
-- order_channel_process_service.cpp.
use vorder.Base.{
  ℕ, zero, suc, ◌+◌, ◌≡◌, refl, ap, ◌∙◌, ◌⊎◌, inl, inr, true, false, some, List, ◌++◌,
  if◌then◌else◌, ltb, take, arith,
}
use vorder.Order.Cps.{Services, Cps, Config, ConfigLog, LocalBlockInfo, new_block, front}
use vorder.Order.Cps.Persist.{
  Write, apply_writes, begin_writes, end_writes, begin_modify, end_modify,
  persistent_block_queue_header, take_over, log_of, on_init,
}

module _ (sv : Services) where
  -- The stores of PersistentBlockQueueHeader for the block `b`, where SaveToLog leaves the table `t`
  -- and Persistence the table `u`.
  unfoldable pub all_writes : LocalBlockInfo → (t u : sv.vt.Table) → List (Write sv.vt.Table)
  unfolding begin_writes end_writes log_of
  all_writes b t u = begin_writes b t ++ end_writes (log_of b) u

  -- The node as it is after the first `k` stores.
  unfoldable pub stopped :
      ℕ → LocalBlockInfo → (t u : sv.vt.Table) → Cps sv.vt.Table → Cps sv.vt.Table
  unfolding all_writes apply_writes
  stopped k b t u c = apply_writes (take k (all_writes b t u)) c

  -- The three phases of the stores.
  Phase : ℕ → LocalBlockInfo → (t u : sv.vt.Table) → Cps sv.vt.Table → Type 0
  Phase k b t u c =
      ((ltb k 5 ≡ true) × ((stopped k b t u c).config ≡ c.config))
      ⊎ (((ltb k 5 ≡ false)
            × ((stopped k b t u c).config.modify_storage_state ≡ true)
            × ((stopped k b t u c).cfg_log ≡ log_of b)
            × (((stopped k b t u c).ws_version_table ≡ t)
                ⊎ ((stopped k b t u c).ws_version_table ≡ u)))
          ⊎ ((ltb k 5 ≡ false)
              × ((stopped k b t u c).config ≡ take_over (log_of b) false c.config)))

  phase : (k : ℕ) (b : LocalBlockInfo) (t u : sv.vt.Table) (c : Cps sv.vt.Table) → Phase k b t u c
  unfolding Phase stopped take_over log_of
  phase zero b t u c = inl (refl, refl)
  phase (suc zero) b t u c = inl (refl, refl)
  phase (suc (suc zero)) b t u c = inl (refl, refl)
  phase (suc (suc (suc zero))) b t u c = inl (refl, refl)
  phase (suc (suc (suc (suc zero)))) b t u c = inl (refl, refl)
  phase (suc (suc (suc (suc (suc zero))))) b t u c = inr (inl (refl, refl, refl, inl refl))
  phase (suc (suc (suc (suc (suc (suc zero)))))) b t u c = inr (inl (refl, refl, refl, inr refl))
  phase (suc (suc (suc (suc (suc (suc (suc zero))))))) b t u c =
      inr (inl (refl, refl, refl, inr refl))
  phase (suc (suc (suc (suc (suc (suc (suc (suc zero)))))))) b t u c =
      inr (inl (refl, refl, refl, inr refl))
  phase (suc (suc (suc (suc (suc (suc (suc (suc (suc zero))))))))) b t u c =
      inr (inl (refl, refl, refl, inr refl))
  phase (suc (suc (suc (suc (suc (suc (suc (suc (suc (suc zero)))))))))) b t u c =
      inr (inr (refl, refl))
  phase (suc (suc (suc (suc (suc (suc (suc (suc (suc (suc (suc k))))))))))) b t u c =
      inr (inr (ground arith, refl))

  -- All the stores are those of the function.
  all_writes-persistent :
      (b : LocalBlockInfo) (t u : sv.vt.Table) (c : Cps sv.vt.Table)
      → sv.vt.save_to_log c.ws_version_table ≡ some (t, true)
      → sv.vt.persistence t ≡ (u, true)
      → front c ≡ some b
      → (d : Cps sv.vt.Table) × (persistent_block_queue_header sv c ≡ some (d, true))
        × (d.config ≡ (stopped 10 b t u c).config)
        × (d.cfg_log ≡ (stopped 10 b t u c).cfg_log)
  unfolding persistent_block_queue_header stopped begin_modify end_modify log_of
  all_writes-persistent b t u c saved kept head =
      rw (persistent_block_queue_header, head, saved, kept) (_, refl, refl, refl)

  -- The block `b` waits first, SaveToLog succeeds and leaves the version table `t`, Persistence
  -- succeeds and leaves `u`, and the flag of a storage under way is down. Then
  -- PersistentBlockQueueHeader succeeds and makes ten stores in the version table and the files. A node
  -- that stops after any number `k` of them, and starts again with the configuration and the log as
  -- they were, the replay of the log of the version table succeeding where the flag is up, has the
  -- following. With the flag up at the stop, the version table is `t` or `u`, so that it had been
  -- logged. The node starts, and its configuration has the id, the hash and the last allocated id that
  -- it had before if fewer than five stores were made, and those of `b` from the fifth on, which is
  -- that of the flag, never a mixture; its first block follows them.
  pub on_init-recovers :
      (channel_id k : ℕ) (b : LocalBlockInfo) (t u : sv.vt.Table) (c e : Cps sv.vt.Table)
      → front c ≡ some b
      → sv.vt.save_to_log c.ws_version_table ≡ some (t, true)
      → sv.vt.persistence t ≡ (u, true)
      → c.config.modify_storage_state ≡ false
      → e.config ≡ (stopped k b t u c).config
      → e.cfg_log ≡ (stopped k b t u c).cfg_log
      → (e.config.modify_storage_state ≡ true → (sv.vt.redo_by_log e.ws_version_table).1 ≡ true)
      → ((d : Cps sv.vt.Table) × (persistent_block_queue_header sv c ≡ some (d, true))
          × (d.config ≡ (stopped 10 b t u c).config)
          × (d.cfg_log ≡ (stopped 10 b t u c).cfg_log))
        × (e.config.modify_storage_state ≡ true
            → ((stopped k b t u c).ws_version_table ≡ t)
              ⊎ ((stopped k b t u c).ws_version_table ≡ u))
        × (f : Cps sv.vt.Table) × (on_init sv channel_id e ≡ some f)
        × (f.config.block_id ≡ (if ltb k 5 then c.config.block_id else b.block_id))
        × (f.config.block_hash ≡ (if ltb k 5 then c.config.block_hash else b.block_hash))
        × (f.config.last_aloc_ws_id
            ≡ (if ltb k 5 then c.config.last_aloc_ws_id else b.last_aloc_ws_id))
        × (f.cur_block_info
            ≡ some (
                new_block e.pack_max_block_size_value
                  (f.config.block_id + 1)
                  f.config.last_aloc_ws_id))
  unfolding on_init Phase take_over log_of
  on_init-recovers channel_id k b t u c e head saved kept_u down cfg log redo =
      let whole = all_writes-persistent b t u c saved kept_u head in
      elim (phase k b t u c) [
        | inl (early, kept) ↦
            let same : e.config ≡ c.config = cfg ∙ kept in
            let off : e.config.modify_storage_state ≡ false =
              ap (λ (x : Config). x.modify_storage_state) same ∙ down in
            rw (on_init, off, early)
              (
                whole,
                λ on. absurd (cc),
                _,
                refl,
                ap (λ (x : Config). x.block_id) same,
                ap (λ (x : Config). x.block_hash) same,
                ap (λ (x : Config). x.last_aloc_ws_id) same,
                refl,
              )
        | inr (inl (late, on, logged, table)) ↦
            let flag : e.config.modify_storage_state ≡ true =
              ap (λ (x : Config). x.modify_storage_state) cfg ∙ on in
            let ready = redo flag in
            let from : e.cfg_log ≡ log_of b = log ∙ logged in
            rw (on_init, flag, ready, late)
              (
                whole,
                λ _. table,
                _,
                refl,
                ap (λ (x : ConfigLog). x.block_id) from,
                ap (λ (x : ConfigLog). x.block_hash) from,
                ap (λ (x : ConfigLog). x.last_aloc_ws_id) from,
                refl,
              )
        | inr (inr (late, kept)) ↦
            let same : e.config ≡ take_over (log_of b) false c.config = cfg ∙ kept in
            let off : e.config.modify_storage_state ≡ false =
              ap (λ (x : Config). x.modify_storage_state) same in
            rw (on_init, off, late)
              (
                whole,
                λ on. absurd (cc),
                _,
                refl,
                ap (λ (x : Config). x.block_id) same,
                ap (λ (x : Config). x.block_hash) same,
                ap (λ (x : Config). x.last_aloc_ws_id) same,
                refl,
              )
      ]
