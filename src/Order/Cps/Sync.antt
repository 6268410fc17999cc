-- ===== src/Order/Cps/Sync.antt =====
-- OnHtsMsg(CMasterSyncVersionTableCsCpsRsp), OnHtsMsg(CSlaveSyncVersionTableCsCpsRsp) and
-- OnSyncTimeOut of order_channel_process_service.cpp: the versions of one block, taken over from a
-- peer.
use vorder.Base.{
  ℕ, ◌+◌, ◌%◌, ◌^◌, Bool, true, false, ◌&&◌, Option, none, some, List, [], ◌∷◌, if◌then◌else◌, ◌==◌,
  ltb, ◌≡◌, ◌⊎◌, ◌↔◌, arith, inl, inr, Option-cases,
}
use vorder.Block.{is_equal}
use vorder.Order.Cps.{Services, Cps, CpsState, ConfigLog, Connection, Out, post, send}
use vorder.Order.Cps.Persist.{take_over}

pub record SyncItem : Type 0 where
  pub allocated_id : ℕ
  pub version : ℕ

pub record SyncRsp : Type 0 where
  pub block_id : ℕ
  pub block_hash : List ℕ
  pub items : List SyncItem

-- GetRegistPeerHandler
unfoldable pub get_regist_peer_handler : ℕ → List ℕ → List Connection → Option Connection
unfolding is_equal
get_regist_peer_handler id hash [] = none
get_regist_peer_handler id hash (p ∷ ps) =
    let rest = get_regist_peer_handler id hash ps in
    if p.registered && (p.regist_max_block_id == id) && is_equal p.regist_max_block_hash hash
    then some p
    else rest

module _ (sv : Services) where
  -- The first loop: a version that is not 0 is the table's and one.
  unfoldable pub check_versions : List SyncItem → sv.vt.Table → sv.vt.Table × Bool
  check_versions [] t = (t, true)
  check_versions (i ∷ is) t =
      let skipped = check_versions is t in
      let (u, version) = sv.vt.read i.allocated_id t in
      let rest = check_versions is u in
      if i.version == 0 then skipped else elim version [
        | none ↦ (u, false)
        | some v ↦ if (v + 1) % 2 ^ 32 == i.version then rest else (u, false)
      ]

  -- The second loop, with the largest id so far.
  unfoldable pub store_versions : ℕ → List SyncItem → sv.vt.Table → sv.vt.Table × ℕ × Bool
  store_versions max [] t = (t, max, true)
  store_versions max (i ∷ is) t =
      let top = if ltb max i.allocated_id then i.allocated_id else max in
      let (u, stored) =
        if i.version == 0
        then sv.vt.append i.allocated_id i.version t
        else sv.vt.update i.allocated_id i.version t in
      let rest = store_versions top is u in if stored then rest else (u, top, false)

  -- The steps 3 to 6: the package is made, logged, stored, and the configuration follows.
  unfoldable pub store_package : ConfigLog → Cps sv.vt.Table → Option (Cps sv.vt.Table)
  unfolding take_over
  store_package log c = elim (sv.vt.save_to_log (sv.vt.pack_modify c.ws_version_table)) [
    | none ↦ none
    | some (t, false) ↦ some (record c { ws_version_table = t })
    | some (t, true) ↦
        let (u, stored) = sv.vt.persistence t in
        some (
          if stored
          then record c {
            ws_version_table = sv.vt.committe_transaction u;
            cfg_log = log;
            config = take_over log false c.config;
          }
          else record c {
            ws_version_table = u;
            cfg_log = log;
            config = record (c.config) { modify_storage_state = false };
          })
  ]

  -- What both handlers do with a block of the id that follows the configuration's.
  unfoldable pub sync_versions : SyncRsp → Cps sv.vt.Table → Option (Cps sv.vt.Table)
  unfolding check_versions store_versions store_package
  sync_versions rsp c =
      let (t, checked) = check_versions rsp.items c.ws_version_table in
      let (u, max, stored) = store_versions 0 rsp.items t in
      if checked
      then if stored
        then store_package
            (record { block_id = rsp.block_id; last_aloc_ws_id = max; block_hash = rsp.block_hash })
            (record c { ws_version_table = u })
        else some (record c { ws_version_table = u })
      else some (record c { ws_version_table = t })

  -- What the master does next: it is in its normal state, or asks for the next block.
  unfoldable pub after_sync : ℕ → Cps sv.vt.Table → Cps sv.vt.Table
  unfolding post send
  after_sync handle c =
      if c.config.block_id == c.kafka_block_id
      then post Out.cancel_sync_timer
          (post Out.set_pack_timer (record c { cps_state = CpsState.master_normal_state }))
      else (send (Out.master_sync_req handle (c.config.block_id + 1)) c).0

  -- A master ignores an answer without versions.
  unfoldable pub sync_if_any : SyncRsp → Cps sv.vt.Table → Option (Cps sv.vt.Table)
  unfolding sync_versions
  sync_if_any rsp c = elim rsp.items [ [] ↦ some c | i ∷ is ↦ sync_versions rsp c ]

  -- OnHtsMsg(CMasterSyncVersionTableCsCpsRsp) of the connection `handle`.
  unfoldable pub on_master_sync : ℕ → SyncRsp → Cps sv.vt.Table → Option (Cps sv.vt.Table)
  unfolding sync_if_any after_sync post
  on_master_sync handle rsp c = elim c.cps_state [
    | CpsState.master_sync_state ↦
        let d = post Out.reset_sync_timer c in
        if c.config.block_id + 1 == rsp.block_id
        then elim (sync_if_any rsp d) [ none ↦ none | some e ↦ some (after_sync handle e) ]
        else some d
    | _ ↦ some c
  ]

  -- OnHtsMsg(CSlaveSyncVersionTableCsCpsRsp)
  unfoldable pub on_slave_sync : SyncRsp → Cps sv.vt.Table → Option (Cps sv.vt.Table)
  unfolding sync_versions
  on_slave_sync rsp c =
      if c.config.block_id + 1 == rsp.block_id then sync_versions rsp c else some c

  -- OnSyncTimeOut(COrderSyncSession)
  unfoldable pub on_sync_time_out : Cps sv.vt.Table → Cps sv.vt.Table
  unfolding get_regist_peer_handler send
  on_sync_time_out c =
      elim (get_regist_peer_handler c.kafka_block_id c.kafka_block_hash c.connections) [
        | none ↦ c
        | some p ↦ (send (Out.master_sync_req p.handle_id (c.config.block_id + 1)) c).0
      ]

  sync_versions-steps :
      (rsp : SyncRsp) (c d : Cps sv.vt.Table)
      → sync_versions rsp c ≡ some d
      → (d.cur_block_info ≡ c.cur_block_info)
        × (d.cps_state ≡ c.cps_state)
        × ((d.config.block_id ≡ c.config.block_id)
            ⊎ ((d.config.block_id ≡ rsp.block_id) × (d.config.block_hash ≡ rsp.block_hash)))
  unfolding sync_versions store_package take_over
  sync_versions-steps rsp c d h = (ground arith, ground arith, ground arith)

  sync_if_any-steps :
      (rsp : SyncRsp) (c d : Cps sv.vt.Table)
      → sync_if_any rsp c ≡ some d
      → (d.cur_block_info ≡ c.cur_block_info)
        × (d.cps_state ≡ c.cps_state)
        × ((d.config.block_id ≡ c.config.block_id)
            ⊎ ((d.config.block_id ≡ rsp.block_id) × (d.config.block_hash ≡ rsp.block_hash)))
  unfolding sync_if_any
  sync_if_any-steps rsp c d h =
      let steps = sync_versions-steps rsp c d in
      (ground (arith, steps), ground (arith, steps), ground (arith, steps))

  -- What a master in its synchronisation state does with a peer's answer, when nothing is null: the
  -- configuration keeps its block id, or takes the id that follows it and the hash of the answer; the
  -- state becomes the normal state exactly when the configuration's id is then the agreed one, the
  -- answer being for the next block; and the block being filled stays as it was, under its old id.
  pub on_master_sync-steps :
      (handle : ℕ) (rsp : SyncRsp) (c d : Cps sv.vt.Table)
      → c.cps_state ≡ CpsState.master_sync_state
      → on_master_sync handle rsp c ≡ some d
      → (d.cur_block_info ≡ c.cur_block_info)
        × ((d.config.block_id ≡ c.config.block_id)
            ⊎ ((d.config.block_id ≡ c.config.block_id + 1)
                × (d.config.block_hash ≡ rsp.block_hash)))
        × (c.config.block_id + 1 ≡ rsp.block_id
            → (d.cps_state ≡ CpsState.master_normal_state) ↔ (d.config.block_id ≡ d.kafka_block_id))
  unfolding on_master_sync after_sync post send
  on_master_sync-steps handle rsp c d s h =
      let e = post Out.reset_sync_timer c in
      elim (Option-cases (sync_if_any rsp e)) [
        | inl nil ↦ (ground (arith, s, nil), ground (arith, s, nil), λ id. ground (arith, s, nil))
        | inr (u, synced) ↦
            let (cur, state, id) = sync_if_any-steps rsp e u synced in
            (
              ground (arith, s, synced, cur),
              ground (arith, s, synced, id),
              λ next. ground (arith, s, synced, state, next),
            )
      ]
