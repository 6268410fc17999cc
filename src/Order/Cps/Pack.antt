-- ===== src/Order/Cps/Pack.antt =====
-- DistributeBlock, OnTimePackBlock, OnTimeDistributeBlock and RollbackPartBlock of
-- order_channel_process_service.cpp.
use vorder.Base.{
  ℕ, ◌+◌, ◌%◌, ◌^◌, Bool, true, false, ◌&&◌, not, Option, none, some, List, [], ◌∷◌, ◌++◌,
  if◌then◌else◌, ◌==◌,
}
use vorder.Block.{init_set_encode_buffer, encode_block_header}
use vorder.Order.Cps.{Services, Cps, LocalBlockInfo, Connection, Out, new_block, send, front}

unfoldable pub last_block : List LocalBlockInfo → Option LocalBlockInfo
last_block [] = none
last_block (b ∷ bs) = elim (last_block bs) [ none ↦ some b | some l ↦ some l ]

unfoldable pub any_registered : List Connection → Bool
any_registered [] = false
any_registered (p ∷ ps) = let rest = any_registered ps in if p.registered then true else rest

-- The loop of DistributeBlock, which sends again to a connection until SendHtsMsg succeeds, with
-- what is left of the results of SendHtsMsg.
unfoldable pub distribute_to :
    ℕ → List ℕ → List Bool → List Connection → List Connection × List Out × List Bool
distribute_to id bytes net [] = ([], [], net)
distribute_to id bytes [] (p ∷ ps) =
    let (qs, os, n) = distribute_to id bytes [] ps in
    if p.registered
    then (
      record p { recv_dist_block_rsp = false } ∷ qs,
      Out.distribute_block_req p.handle_id id bytes ∷ Out.set_resend_timer p.handle_id ∷ os,
      n,
    )
    else (p ∷ qs, os, n)
distribute_to id bytes (sent ∷ net) (p ∷ ps) =
    let again = distribute_to id bytes net (p ∷ ps) in
    let (qs, os, n) = distribute_to id bytes net ps in
    let (qs', os', n') = distribute_to id bytes (sent ∷ net) ps in
    if p.registered
    then if sent
      then (
        record p { recv_dist_block_rsp = false } ∷ qs,
        Out.distribute_block_req p.handle_id id bytes ∷ Out.set_resend_timer p.handle_id ∷ os,
        n,
      )
      else again
    else (p ∷ qs', os', n')

module _ {T : Type 0} where
  unfoldable pub distribute_block : Cps T → Option (Cps T)
  unfolding any_registered distribute_to front
  distribute_block c =
      if any_registered c.connections && not (c.queue_block_num == 0)
      then elim (front c) [
        | none ↦ none
        | some b ↦
            let (ps, os, net) = distribute_to b.block_id b.block_data c.net c.connections in
            some (record c {
              dist_block_rsp_peer_count = 0;
              connections = ps;
              out = c.out ++ os;
              net = net;
            })
      ]
      else some c

  -- OnTimeDistributeBlock, of the connection `handle`.
  unfoldable pub on_time_distribute_block : ℕ → Cps T → Option (Cps T)
  unfolding front send
  on_time_distribute_block handle c = elim (front c) [
    | none ↦ none
    | some b ↦ some (send (Out.distribute_block_req handle b.block_id b.block_data) c).0
  ]

  -- The hash that the next block names as its predecessor's.
  unfoldable pub pre_hash : Cps T → Option (List ℕ)
  unfolding last_block
  pre_hash c =
      if c.queue_block_num == 0
      then some c.config.block_hash
      else elim (last_block c.queue_block_info) [ none ↦ none | some b ↦ some b.block_hash ]

module _ (sv : Services) where
  -- The steps 1 to 3 of OnTimePackBlock, on the current block `b`, with the previous hash `pre` and
  -- the time `now`.
  unfoldable pub pack_block :
      ℕ → List ℕ → LocalBlockInfo → Cps sv.vt.Table → Option (Cps sv.vt.Table)
  unfolding encode_block_header init_set_encode_buffer new_block
  pack_block now pre b c =
      let (e, bytes) = encode_block_header sv.codec sv.digest (record (c.block_encoder) {
        bc_block_header = record (c.block_encoder.bc_block_header) {
          order_id = c.order_id;
          block_id = b.block_id;
          block_time = now;
          pre_block_hash = pre;
        };
      }) in
      elim bytes [
        | none ↦ none
        | some h ↦ some (record c {
          ws_version_table = sv.vt.pack_modify c.ws_version_table;
          queue_block_info =
              c.queue_block_info
              ++ record b { block_hash = sv.digest (h ++ e.body); block_data = h ++ e.body } ∷ [];
          queue_block_num = (c.queue_block_num + 1) % 2 ^ 32;
          block_encoder = init_set_encode_buffer e;
          cur_block_info =
              some (new_block c.block_buf_initial_size (b.block_id + 1) b.last_aloc_ws_id);
        })
      ]

  unfoldable pub on_time_pack_block : ℕ → Cps sv.vt.Table → Option (Cps sv.vt.Table)
  unfolding pack_block pre_hash distribute_block
  on_time_pack_block now c =
      if c.block_encoder.bc_block_header.trans_count == 0 then some c else elim c.cur_block_info [
        | none ↦ none
        | some b ↦ elim (pre_hash c) [
          | none ↦ none
          | some pre ↦ elim (pack_block now pre b c) [
            | none ↦ none
            | some d ↦ if d.queue_block_num == 1 then distribute_block d else some d
          ]
        ]
      ]

  unfoldable pub rollback_part_block : Cps sv.vt.Table → Option (Cps sv.vt.Table)
  unfolding last_block new_block init_set_encode_buffer
  rollback_part_block c =
      let done = λ (b : LocalBlockInfo). record c {
        ws_version_table = sv.vt.rollback_unpack_cache c.ws_version_table;
        cur_block_info = some b;
        block_encoder = init_set_encode_buffer c.block_encoder;
      } in
      elim c.cur_block_info [
        | none ↦ none
        | some _ ↦
            if c.queue_block_num == 0
            then some (
                done (
                  new_block c.pack_max_block_size_value (c.config.block_id + 1)
                    c.config.last_aloc_ws_id))
            else elim (last_block c.queue_block_info) [
              | none ↦ none
              | some l ↦
                  some (
                    done (new_block c.pack_max_block_size_value (l.block_id + 1) l.last_aloc_ws_id))
            ]
      ]
