-- ===== src/Examples/Channel.antt =====
-- A block service with a quorum of one answer, over a small version table.
use vorder.Base.{
  ℕ, ◌+◌, ◌-◌, ◌^◌, ◌%◌, ◌<◌, ◌≡◌, refl, true, false, Option, some, none, [], ◌∷◌, arith, ◌⊎◌, ◌↔◌,
}
use vorder.Merkel.{new_tree}
use vorder.Block.{Propose}
use vorder.Order.Cps.{VersionTable, Services, Cps, CpsState, Connection, LocalBlockInfo, new_block}
use vorder.Order.Cps.Pack.{on_time_pack_block, rollback_part_block}
use vorder.Order.Cps.Persist.{persistent_block_queue_header, on_distribute_block_rsp, on_init}
use vorder.Order.Cps.Submit.{RegistReq, on_submit_regist_user}
use vorder.Order.Cps.Proposal.{ProposalReq}
use vorder.Order.Cps.Sync.{SyncRsp, on_master_sync, on_master_sync-steps}
use vorder.Order.Cps.Chain.{IsChained, chain_end, end_id}
use vorder.Order.Cps.Chained.{last_ids, on_time_pack_block-IsChained, rollback_part_block-IsChained}
use vorder.Order.Cps.Recovery.{persistent_block_queue_header-IsChained}
use vorder.Order.Cps.Crash.{stopped, on_init-recovers}
use vorder.Order.Cps.Requests.{on_submit_regist_user-IsChained}
use vorder.Order.Cps.Quorum.{on_distribute_block_rsp-IsChained}
use vorder.Order.Cps.Regist.{RegistCsReq, on_regist}
use vorder.Order.Cps.Recount.{on_regist-recount}
use vorder.Block.{is_equal}
use vorder.Order.Cps.{front}
use vorder.Order.Cps.Persist.{find_connection}
use vorder.Order.Cps.Proposal.{on_submit_proposal}
use vorder.Order.Cps.Proposals.{on_submit_proposal-IsChained}
use vorder.Examples.Data.{sum}
use vorder.Examples.BlockData.{block_codec, first_encoder}

-- A table of which only the number of packages is kept, each record at version 3.
unfoldable counted : VersionTable
counted = record {
  Table = ℕ;
  read = λ i t. (t, some 3);
  update = λ i v t. (t, true);
  append = λ i v t. (t, true);
  pack_modify = λ t. t + 1;
  rollback_unpack_cache = λ t. t;
  committe_transaction = λ t. t - 1;
  save_to_log = λ t. some (t, true);
  persistence = λ t. (t, true);
  redo_by_log = λ t. (t, true);
  package_num = λ t. t;
  package_num-read = λ i t. refl;
  package_num-update = λ i v t. refl;
  package_num-append = λ i v t. refl;
  package_num-pack = λ t. refl;
  package_num-rollback = λ t. refl;
  package_num-committe = λ t. refl;
  package_num-save = λ t u b h. ground arith;
  package_num-persistence = λ t. refl;
}

unfoldable services : Services
unfolding counted
services = record { vt = counted; codec = block_codec; digest = sum }

abbrev peer : Connection
peer = record {
  handle_id = 5;
  registered = true;
  recv_dist_block_rsp = false;
  peer_id = 2;
  cas_port = 0;
  cas_ip_addr = [];
  regist_max_block_id = 6;
  regist_max_block_hash = [];
}

abbrev idle : Cps services.vt.Table
unfolding services counted new_block
idle = record {
  cps_state = CpsState.master_normal_state;
  order_id = 1;
  kafka_value = 1;
  pack_max_block_size_value = 100;
  block_buf_initial_size = 100;
  max_cache_block_count = 5;
  connections = peer ∷ [];
  queue_block_num = 0;
  queue_block_info = [];
  cur_block_info = some (new_block 100 7 11);
  block_encoder = first_encoder;
  dist_block_rsp_peer_count = 0;
  config = record {
    modify_storage_state = false;
    sequence_number = 4;
    block_id = 6;
    last_aloc_ws_id = 11;
    block_hash = 8 ∷ [];
  };
  cfg_log = record { block_id = 6; last_aloc_ws_id = 11; block_hash = 8 ∷ [] };
  ws_version_table = 0;
  kafka_block_id = 6;
  kafka_block_hash = 8 ∷ [];
  net = [];
  out = [];
}

idle-IsChained : IsChained services idle
unfolding services counted idle end_id new_block
idle-IsChained = (chain_end, refl, refl, λ b e. ground arith)

abbrev user : RegistReq
user = record { user_info = 1 ∷ []; clt_pub_key = []; svr_pri_key = []; envelope_key = [] }

-- What a handler leaves, `c` when it reads a null pointer.
abbrev left : Cps services.vt.Table → Option (Cps services.vt.Table) → Cps services.vt.Table
left c r = elim r [ none ↦ c | some d ↦ d ]

abbrev busy : Cps services.vt.Table
unfolding idle services counted on_submit_regist_user
busy = left idle (on_submit_regist_user services 9 100 user idle)

on_submit_regist_user-IsChained_example : IsChained services busy
unfolding idle services counted on_submit_regist_user busy block_codec new_tree sum
on_submit_regist_user-IsChained_example =
    on_submit_regist_user-IsChained services 9 100 user idle busy idle-IsChained (omega arith) refl

busy-IsChained : IsChained services busy
unfolding idle services counted on_submit_regist_user busy block_codec new_tree sum
busy-IsChained =
    on_submit_regist_user-IsChained services 9 100 user idle busy idle-IsChained (omega arith) refl

abbrev full : Cps services.vt.Table
unfolding busy services counted on_time_pack_block block_codec new_tree sum
full = left busy (on_time_pack_block services 101 busy)

on_time_pack_block-IsChained_example : IsChained services full
unfolding full busy idle services counted on_submit_regist_user on_time_pack_block block_codec
    new_tree sum
on_time_pack_block-IsChained_example =
    on_time_pack_block-IsChained services 101 busy full busy-IsChained (omega arith) refl

full-IsChained : IsChained services full
unfolding full busy idle services counted on_submit_regist_user on_time_pack_block block_codec
    new_tree sum
full-IsChained =
    on_time_pack_block-IsChained services 101 busy full busy-IsChained (omega arith) refl

rollback_part_block-IsChained_example :
    (d : Cps services.vt.Table) × (rollback_part_block services busy ≡ some d)
    × IsChained services d
    × (d.queue_block_info ≡ busy.queue_block_info)
    × (d.config ≡ busy.config)
    × (d.block_encoder.bc_block_header.trans_count ≡ 0)
    × (d.ws_version_table ≡ services.vt.rollback_unpack_cache busy.ws_version_table)
    × (d.cur_block_info
        ≡ some (
            new_block busy.pack_max_block_size_value
              (busy.config.block_id + 1)
              busy.config.last_aloc_ws_id))
unfolding last_ids busy idle services counted on_submit_regist_user block_codec new_tree sum
rollback_part_block-IsChained_example =
    rollback_part_block-IsChained services _ busy busy-IsChained refl

abbrev after_rsp : Cps services.vt.Table
unfolding full services counted on_distribute_block_rsp
after_rsp = left full (on_distribute_block_rsp services 5 7 full)

on_distribute_block_rsp-IsChained_example :
    IsChained services after_rsp
    × ((full.dist_block_rsp_peer_count + 1) % 2 ^ 32 < full.kafka_value
        → after_rsp.config ≡ full.config)
unfolding after_rsp full busy idle services counted on_submit_regist_user on_time_pack_block
    block_codec new_tree sum on_distribute_block_rsp
on_distribute_block_rsp-IsChained_example =
    on_distribute_block_rsp-IsChained services 5 7 full after_rsp full-IsChained (omega arith) refl

abbrev waiting : LocalBlockInfo
unfolding full services counted
waiting = elim full.queue_block_info [ [] ↦ new_block 0 0 0 | b ∷ bs ↦ b ]

abbrev stored : Cps services.vt.Table
unfolding full services counted persistent_block_queue_header
stored = elim (persistent_block_queue_header services full) [ none ↦ full | some (d, b) ↦ d ]

persistent_block_queue_header-IsChained_example :
    IsChained services stored
    × (true ≡ false
        → (stored.queue_block_info ≡ waiting ∷ [])
          × (stored.config.block_id ≡ full.config.block_id)
          × (stored.config.block_hash ≡ full.config.block_hash))
    × (true ≡ true
        → (stored.queue_block_info ≡ [])
          × (stored.config.block_id ≡ waiting.block_id)
          × (stored.config.block_hash ≡ waiting.block_hash)
          × (stored.config.last_aloc_ws_id ≡ waiting.last_aloc_ws_id)
          × (stored.config.modify_storage_state ≡ false))
unfolding stored waiting full busy idle services counted on_submit_regist_user on_time_pack_block
    block_codec new_tree sum persistent_block_queue_header
persistent_block_queue_header-IsChained_example =
    persistent_block_queue_header-IsChained services full stored true waiting [] full-IsChained refl
      (omega arith) refl

-- The tables that SaveToLog and Persistence leave.
abbrev logged : services.vt.Table
unfolding full services counted
logged = elim (services.vt.save_to_log full.ws_version_table) [
  | none ↦ full.ws_version_table
  | some (t, done) ↦ t
]

abbrev written : services.vt.Table
unfolding logged full services counted
written = (services.vt.persistence logged).0

-- A stop after the flag is set and one field of the configuration written.
abbrev halfway : Cps services.vt.Table
unfolding logged written full waiting services counted stopped
halfway = stopped services 7 waiting logged written full

on_init-recovers_example :
    ((d : Cps services.vt.Table) × (persistent_block_queue_header services full ≡ some (d, true))
      × (d.config ≡ (stopped services 10 waiting logged written full).config)
      × (d.cfg_log ≡ (stopped services 10 waiting logged written full).cfg_log))
    × (halfway.config.modify_storage_state ≡ true
        → (halfway.ws_version_table ≡ logged) ⊎ (halfway.ws_version_table ≡ written))
    × (f : Cps services.vt.Table) × (on_init services 3 halfway ≡ some f)
    × (f.config.block_id ≡ waiting.block_id)
    × (f.config.block_hash ≡ waiting.block_hash)
    × (f.config.last_aloc_ws_id ≡ waiting.last_aloc_ws_id)
    × (f.cur_block_info
        ≡ some (
            new_block halfway.pack_max_block_size_value
              (f.config.block_id + 1)
              f.config.last_aloc_ws_id))
unfolding logged written halfway full waiting services counted stopped
on_init-recovers_example =
    on_init-recovers services 3 7 waiting logged written full halfway refl refl refl refl refl refl
      (λ _. refl)

-- A service that lacks the block 7, which its peers agree on.
abbrev behind : Cps services.vt.Table
unfolding idle services counted
behind = record idle { cps_state = CpsState.master_sync_state; kafka_block_id = 7 }

abbrev answer : SyncRsp
answer = record {
  block_id = 7;
  block_hash = 9 ∷ [];
  items = record { allocated_id = 3; version = 4 } ∷ record { allocated_id = 12; version = 0 } ∷ [];
}

abbrev synced : Cps services.vt.Table
unfolding behind services counted on_master_sync
synced = left behind (on_master_sync services 5 answer behind)

on_master_sync-steps_example :
    (synced.cur_block_info ≡ behind.cur_block_info)
    × ((synced.config.block_id ≡ behind.config.block_id)
        ⊎ ((synced.config.block_id ≡ behind.config.block_id + 1)
            × (synced.config.block_hash ≡ answer.block_hash)))
    × (behind.config.block_id + 1 ≡ answer.block_id
        → (synced.cps_state ≡ CpsState.master_normal_state)
          ↔ (synced.config.block_id ≡ synced.kafka_block_id))
unfolding synced behind idle services counted on_master_sync
on_master_sync-steps_example = on_master_sync-steps services 5 answer behind synced refl refl

-- A proposal of the version 1 of an item whose version is 3.
abbrev conflict : Propose
conflict = record {
  ws_items = record { version = 1; allocated_id = 3; value = [] } ∷ [];
  action_id = 7;
  user_key_id = 0;
  signature = [];
  proposal = [];
}

abbrev request : ProposalReq
unfolding block_codec
request = record { action_id = 7; trans_content = block_codec.encode_propose conflict }

-- The block 7 is being distributed, and three answers are needed.
abbrev distributing : Cps services.vt.Table
unfolding full services counted
distributing = record full { kafka_value = 3 }

abbrev again : RegistCsReq
unfolding waiting full services counted
again = record {
  peer_id = 2;
  cas_port = 0;
  cas_ip_addr = [];
  max_block_id = 7;
  max_block_hash = waiting.block_hash;
}

on_regist-recount_example :
    (d e : Cps services.vt.Table) × (on_regist 5 again distributing ≡ some (d, true))
    × (on_distribute_block_rsp services 5 waiting.block_id d ≡ some e)
    × (e.dist_block_rsp_peer_count ≡ distributing.dist_block_rsp_peer_count + 1)
unfolding distributing again waiting full busy idle services counted on_submit_regist_user
    on_time_pack_block block_codec new_tree sum find_connection front is_equal new_block
on_regist-recount_example =
    on_regist-recount services 5 again distributing peer waiting refl refl refl refl refl
      (omega arith) refl refl (omega arith) (omega arith)

abbrev proposed : Cps services.vt.Table
unfolding idle services counted on_submit_proposal
proposed = left idle (on_submit_proposal services 9 100 request idle)

on_submit_proposal-IsChained_example : IsChained services proposed
unfolding proposed request idle services counted on_submit_proposal block_codec new_tree sum
on_submit_proposal-IsChained_example =
    on_submit_proposal-IsChained services 9 100 request idle proposed idle-IsChained (omega arith)
      refl
