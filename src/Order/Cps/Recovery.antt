-- ===== src/Order/Cps/Recovery.antt =====
-- PersistentBlockQueueHeader of order_channel_process_service.cpp.
use vorder.Base.{
  ℕ, suc, ◌<◌, ◌^◌, ◌≡◌, sym, ap, ◌∙◌, Bool, true, false, some, List, ◌∷◌, length, arith,
  Option-cases, Bool-cases, inl, inr,
}
use mathlib.Core.Path.{subst}
use vorder.Order.Cps.{Services, Cps, LocalBlockInfo, front}
use vorder.Order.Cps.Persist.{
  begin_modify, end_modify, persistent_block_queue_header, take_over, log_of,
}
use vorder.Order.Cps.Chain.{IsChained, Chain, chain_link, end_id}

module _ (sv : Services) where
  -- The head of a chain becomes its start.
  tail-Chain :
      (id : ℕ) (hash : List ℕ) (b : LocalBlockInfo) (bs : List LocalBlockInfo)
      → Chain sv.codec sv.digest id hash (b ∷ bs)
      → Chain sv.codec sv.digest b.block_id b.block_hash bs
  tail-Chain id hash b bs (chain_link _ _ f rest) = rest

  -- Storing the oldest block that waits keeps the chain, whether it succeeds or fails; it fails with
  -- the configuration's id and hash and the queue unchanged, and succeeds with the id, the hash and the
  -- last allocated id of that block in the configuration, that block no longer in the queue, and the
  -- flag of a storage under way down; for fewer than 2 ^ 32 blocks that wait.
  pub persistent_block_queue_header-IsChained :
      (c d : Cps sv.vt.Table) (stored : Bool) (b : LocalBlockInfo) (bs : List LocalBlockInfo)
      → IsChained sv c
      → c.queue_block_info ≡ b ∷ bs
      → length (b ∷ bs) < 2 ^ 32
      → persistent_block_queue_header sv c ≡ some (d, stored)
      → IsChained sv d
        × (stored ≡ false
            → (d.queue_block_info ≡ b ∷ bs)
              × (d.config.block_id ≡ c.config.block_id)
              × (d.config.block_hash ≡ c.config.block_hash))
        × (stored ≡ true
            → (d.queue_block_info ≡ bs)
              × (d.config.block_id ≡ b.block_id)
              × (d.config.block_hash ≡ b.block_hash)
              × (d.config.last_aloc_ws_id ≡ b.last_aloc_ws_id)
              × (d.config.modify_storage_state ≡ false))
  unfolding persistent_block_queue_header begin_modify end_modify take_over log_of front end_id
  persistent_block_queue_header-IsChained c d stored b bs (p, k, m, f) q bound h =
      elim (Option-cases (sv.vt.save_to_log c.ws_version_table)) [
        | inl nil ↦ absurd (ground (arith, q, nil))
        | inr ((t, false), is) ↦
            let same : d ≡ record c { ws_version_table = t } = ground (arith, q, is) in
            let off : stored ≡ false = ground (arith, q, is) in
            (
              subst (λ x. IsChained sv x) (sym same)
                  (p, k, sv.vt.package_num-save c.ws_version_table t false is ∙ m, f),
              λ _. ground (arith, same, q),
              λ on. absurd (ground (arith, on, off)),
            )
        | inr ((t, true), is) ↦
            let n = sv.vt.package_num-save c.ws_version_table t true is ∙ m in
            let r = sv.vt.persistence t in
            let num = sv.vt.package_num-persistence t ∙ n in
            elim (Bool-cases r.1) [
              | inl on ↦
                  let queue : d.queue_block_info ≡ bs = ground (arith, q, is, on) in
                  let id : d.config.block_id ≡ b.block_id = ground (arith, q, is, on) in
                  let hash : d.config.block_hash ≡ b.block_hash = ground (arith, q, is, on) in
                  let cur : d.cur_block_info ≡ c.cur_block_info = ground (arith, q, is, on) in
                  let table : d.ws_version_table ≡ sv.vt.committe_transaction r.0 =
                    ground (arith, q, is, on) in
                  let len : length c.queue_block_info ≡ suc (length bs) = ap length q in
                  (
                    (
                      rw (id, hash, queue)
                          (tail-Chain c.config.block_id c.config.block_hash b bs (rw q at p)),
                      ground (arith, q, is, on, k, len, queue),
                      rw (table, queue) (sv.vt.package_num-committe r.0 ∙ omega (arith, num, len)),
                      λ x e. rw (id, queue) (rw q at (f x (sym cur ∙ e))),
                    ),
                    λ off. absurd (ground (arith, q, is, on, off)),
                    λ _. (queue, id, hash, ground (arith, q, is, on), ground (arith, q, is, on)),
                  )
              | inr off ↦
                  let same : d ≡ record c {
                    ws_version_table = r.0;
                    cfg_log = log_of b;
                    config = record (c.config) { modify_storage_state = false };
                  } =
                    ground (arith, q, is, off) in
                  let failed : stored ≡ false = ground (arith, q, is, off) in
                  (
                    subst (λ x. IsChained sv x) (sym same) (p, k, num, f),
                    λ _. ground (arith, same, q),
                    λ on. absurd (ground (arith, on, failed)),
                  )
            ]
      ]
