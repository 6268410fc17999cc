-- ===== src/Order/Cps/Persist.antt =====
-- PersistentBlockQueueHeader, OnTimeRepersistence, the answers to a distributed block and the recovery
-- of OnInit, in order_channel_process_service.cpp.
use vorder.Base.{
  ℕ, ◌+◌, ◌-◌, ◌%◌, ◌^◌, Bool, true, false, Option, none, some, List, [], ◌∷◌, ◌++◌, if◌then◌else◌,
  ◌==◌, leb,
}
use vorder.Block.{init_set_encode_buffer}
use vorder.Order.Cps.{
  Services, Cps, Config, ConfigLog, LocalBlockInfo, Connection, Out, new_block, post, front,
}
use vorder.Order.Cps.Pack.{distribute_block}

-- Step 1.2 of PersistentBlockQueueHeader.
unfoldable pub log_of : LocalBlockInfo → ConfigLog
log_of b = record {
  block_id = b.block_id;
  last_aloc_ws_id = b.last_aloc_ws_id;
  block_hash = b.block_hash;
}

-- Step 2.2: the log is taken over into the configuration.
unfoldable pub take_over : ConfigLog → Bool → Config → Config
take_over l modify cfg = record cfg {
  block_id = l.block_id;
  last_aloc_ws_id = l.last_aloc_ws_id;
  block_hash = l.block_hash;
  modify_storage_state = modify;
}

-- The loop that cancels the resend timers, over m_arrCsConnectHandler.
unfoldable pub cancel_timers : List Connection → List Out
cancel_timers [] = []
cancel_timers (p ∷ ps) =
    let rest = cancel_timers ps in
    if p.registered then Out.cancel_resend_timer p.handle_id ∷ rest else rest

unfoldable pub find_connection : ℕ → List Connection → Option Connection
find_connection i [] = none
find_connection i (p ∷ ps) =
    let rest = find_connection i ps in if p.handle_id == i then some p else rest

unfoldable pub set_recv : ℕ → List Connection → List Connection
set_recv i [] = []
set_recv i (p ∷ ps) =
    let rest = set_recv i ps in
    if p.handle_id == i then record p { recv_dist_block_rsp = true } ∷ rest else p ∷ rest

-- The stores that PersistentBlockQueueHeader makes, in the version table and the two mapped files.
pub data Write (T : Type 0) : Type 0 where
  store_table : T → Write T
  log_block_id log_last_aloc_ws_id : ℕ → Write T
  log_block_hash : List ℕ → Write T
  modify_state : Bool → Write T
  config_block_id config_last_aloc_ws_id : ℕ → Write T
  config_block_hash : List ℕ → Write T

unfoldable pub apply_write : {T : Type 0} → Write T → Cps T → Cps T
apply_write (store_table t) c = record c { ws_version_table = t }
apply_write (log_block_id n) c = record c { cfg_log = record (c.cfg_log) { block_id = n } }
apply_write (log_last_aloc_ws_id n) c = record c {
  cfg_log = record (c.cfg_log) { last_aloc_ws_id = n };
}
apply_write (log_block_hash x) c = record c { cfg_log = record (c.cfg_log) { block_hash = x } }
apply_write (modify_state m) c = record c {
  config = record (c.config) { modify_storage_state = m };
}
apply_write (config_block_id n) c = record c { config = record (c.config) { block_id = n } }
apply_write (config_last_aloc_ws_id n) c = record c {
  config = record (c.config) { last_aloc_ws_id = n };
}
apply_write (config_block_hash x) c = record c { config = record (c.config) { block_hash = x } }

unfoldable pub apply_writes : {T : Type 0} → List (Write T) → Cps T → Cps T
unfolding apply_write
apply_writes [] c = c
apply_writes (w ∷ ws) c = apply_writes ws (apply_write w c)

-- Steps 1 and 2 up to EN_BEGIN_MODIFY_STORAGE, where SaveToLog left the table `t`.
unfoldable pub begin_writes : {T : Type 0} → LocalBlockInfo → T → List (Write T)
begin_writes b t =
    store_table t
    ∷ log_block_id b.block_id
    ∷ log_last_aloc_ws_id b.last_aloc_ws_id
    ∷ log_block_hash b.block_hash
    ∷ modify_state true
    ∷ []

-- Step 2 from there on, where Persistence succeeded and left the table `u`.
unfoldable pub end_writes : {T : Type 0} → ConfigLog → T → List (Write T)
end_writes l u =
    store_table u
    ∷ config_block_id l.block_id
    ∷ config_last_aloc_ws_id l.last_aloc_ws_id
    ∷ config_block_hash l.block_hash
    ∷ modify_state false
    ∷ []

module _ (sv : Services) where
  -- Up to the setting of EN_BEGIN_MODIFY_STORAGE; false when the log was not written.
  unfoldable pub begin_modify : LocalBlockInfo → Cps sv.vt.Table → Option (Cps sv.vt.Table × Bool)
  unfolding begin_writes apply_writes
  begin_modify b c = elim (sv.vt.save_to_log c.ws_version_table) [
    | none ↦ none
    | some (t, false) ↦ some (record c { ws_version_table = t }, false)
    | some (t, true) ↦ some (apply_writes (begin_writes b t) c, true)
  ]

  -- From the storing of the table on.
  unfoldable pub end_modify : Cps sv.vt.Table → Cps sv.vt.Table × Bool
  unfolding end_writes apply_writes
  end_modify c =
      let (t, stored) = sv.vt.persistence c.ws_version_table in
      let d = apply_writes (end_writes c.cfg_log t) c in
      if stored
      then (
        record d {
          ws_version_table = sv.vt.committe_transaction t;
          queue_block_info = elim c.queue_block_info [ [] ↦ [] | b ∷ bs ↦ bs ];
          queue_block_num = (c.queue_block_num + (2 ^ 32 - 1)) % 2 ^ 32;
        },
        true,
      )
      else (
        record c {
          ws_version_table = t;
          config = record (c.config) { modify_storage_state = false };
        },
        false,
      )

  -- PersistentBlockQueueHeader; the Bool tells whether it returned 0.
  unfoldable pub persistent_block_queue_header : Cps sv.vt.Table → Option (Cps sv.vt.Table × Bool)
  unfolding begin_modify end_modify front
  persistent_block_queue_header c = elim (front c) [
    | none ↦ none
    | some b ↦ elim (begin_modify b c) [
      | none ↦ none
      | some (d, false) ↦ some (d, false)
      | some (d, true) ↦ some (end_modify d)
    ]
  ]

  -- What follows the storing of a block: the next one is distributed, or `failed` is done.
  unfoldable pub next_block :
      (Cps sv.vt.Table → Cps sv.vt.Table) → Cps sv.vt.Table × Bool → Option (Cps sv.vt.Table)
  unfolding distribute_block
  next_block failed (c, stored) =
      if stored
      then if c.queue_block_num == 0 then some c else distribute_block c
      else some (failed c)

  unfoldable pub on_time_repersistence : Cps sv.vt.Table → Option (Cps sv.vt.Table)
  unfolding persistent_block_queue_header next_block post
  on_time_repersistence c = elim (persistent_block_queue_header c) [
    | none ↦ none
    | some (d, stored) ↦
        next_block (λ e. e) (if stored then post Out.cancel_repersist_timer d else d, stored)
  ]

  -- The branch of a first answer of the connection `i`.
  unfoldable pub count_rsp : ℕ → Cps sv.vt.Table → Option (Cps sv.vt.Table)
  unfolding set_recv cancel_timers persistent_block_queue_header next_block post
  count_rsp i c =
      let n = (c.dist_block_rsp_peer_count + 1) % 2 ^ 32 in
      let d = record c { connections = set_recv i c.connections; dist_block_rsp_peer_count = n } in
      if leb c.kafka_value n
      then elim (persistent_block_queue_header
          (record d { out = c.out ++ cancel_timers c.connections })) [
            | none ↦ none
            | some r ↦ next_block (post Out.set_repersist_timer) r
          ]
      else some (post (Out.cancel_resend_timer i) d)

  -- OnHtsMsg(CDistributeBlockXcsCpsRsp), of the connection `i` and the block `id`.
  unfoldable pub on_distribute_block_rsp : ℕ → ℕ → Cps sv.vt.Table → Option (Cps sv.vt.Table)
  unfolding front find_connection count_rsp
  on_distribute_block_rsp i id c = elim (front c) [
    | none ↦ some c
    | some b ↦
        if b.block_id == id
        then elim (find_connection i c.connections) [
          | none ↦ none
          | some p ↦ if p.recv_dist_block_rsp then some c else count_rsp i c
        ]
        else some c
  ]

  -- OnInit from the reading of the configuration on; none is the return code -1.
  unfoldable pub on_init : ℕ → Cps sv.vt.Table → Option (Cps sv.vt.Table)
  unfolding take_over new_block init_set_encode_buffer
  on_init channel_id c =
      let start = λ (d : Cps sv.vt.Table). record d {
        config = record (d.config) { sequence_number = channel_id };
        cur_block_info = some (
            new_block d.pack_max_block_size_value (d.config.block_id + 1) d.config.last_aloc_ws_id);
        block_encoder = init_set_encode_buffer d.block_encoder;
      } in
      let (t, redone) = sv.vt.redo_by_log c.ws_version_table in
      let redo =
        if redone
        then some
            (start (record c { ws_version_table = t; config = take_over c.cfg_log true c.config }))
        else none in
      if c.config.modify_storage_state then redo else some (start c)
