-- ===== src/Order/Cps.antt =====
-- ord_cps/order_channel_process_service.{h,cpp}: CChannelProcessService, the block service of a
-- channel: its state and the interface to the version table. A handler whose result is none reads a
-- null pointer, or memory that was never written. `net` holds the results of the next calls of
-- SendHtsMsg, all of which succeed behind its end; `out` is what was sent and asked of the timers.
pub mod Pack
pub mod Persist
pub mod Submit
pub mod Proposal
pub mod Sync
pub mod Regist
pub mod Chain
pub mod Chained
pub mod Recovery
pub mod Crash
pub mod Submitted
pub mod Requests
pub mod Quorum
pub mod Versions
pub mod Recount
pub mod Proposals
use vorder.Base.{
  ℕ, ◌+◌, ◌-◌, ◌<◌, ◌≡◌, Bool, true, false, Option, none, some, List, [], ◌∷◌, ◌++◌, if◌then◌else◌,
  ◌==◌,
}
use vorder.Block.{BlockCodec, Encoder}

-- What the service uses of the table of write-set versions, CVbhMultiUpdateTable: none is a write to a
-- log that is not mapped, and `package_num` the number of packages that wait to be stored.
pub record VersionTable : Type 1 where
  pub Table : Type 0
  pub read : ℕ → Table → Table × Option ℕ
  pub update : ℕ → ℕ → Table → Table × Bool
  pub append : ℕ → ℕ → Table → Table × Bool
  pub pack_modify : Table → Table
  pub rollback_unpack_cache : Table → Table
  pub committe_transaction : Table → Table
  pub save_to_log : Table → Option (Table × Bool)
  pub persistence : Table → Table × Bool
  pub redo_by_log : Table → Table × Bool
  pub package_num : Table → ℕ
  pub package_num-read : (i : ℕ) (t : Table) → package_num (read i t).0 ≡ package_num t
  pub package_num-update : (i v : ℕ) (t : Table) → package_num (update i v t).0 ≡ package_num t
  pub package_num-append : (i v : ℕ) (t : Table) → package_num (append i v t).0 ≡ package_num t
  pub package_num-pack : (t : Table) → package_num (pack_modify t) ≡ package_num t + 1
  pub package_num-rollback : (t : Table) → package_num (rollback_unpack_cache t) ≡ package_num t
  pub package_num-committe : (t : Table) → package_num (committe_transaction t) ≡ package_num t - 1
  pub package_num-save :
      (t u : Table) (b : Bool) → save_to_log t ≡ some (u, b) → package_num u ≡ package_num t
  pub package_num-persistence : (t : Table) → package_num (persistence t).0 ≡ package_num t

-- The version table, the codec, and vbhDigest.
pub record Services : Type 1 where
  pub vt : VersionTable
  pub codec : BlockCodec
  pub digest : List ℕ → List ℕ

pub data CpsState : Type 0 where
  follower_state master_wait_state master_start_state master_sync_state master_normal_state :
      CpsState

unfoldable pub is_normal : CpsState → Bool
is_normal CpsState.master_normal_state = true
is_normal s = false

-- CCpsConfig; the flag is EN_BEGIN_MODIFY_STORAGE.
pub record Config : Type 0 where
  pub modify_storage_state : Bool
  pub sequence_number : ℕ
  pub block_id : ℕ
  pub last_aloc_ws_id : ℕ
  pub block_hash : List ℕ

pub record ConfigLog : Type 0 where
  pub block_id : ℕ
  pub last_aloc_ws_id : ℕ
  pub block_hash : List ℕ

-- CLocalBlockInfo; `block_data` is the block as it is sent, once it is packed.
pub record LocalBlockInfo : Type 0 where
  pub block_buf_size : ℕ
  pub block_data_len : ℕ
  pub block_id : ℕ
  pub last_aloc_ws_id : ℕ
  pub block_hash : List ℕ
  pub block_data : List ℕ

-- CCsConnectSessionHandler, of every connection; `registered` tells those in m_arrCsConnectHandler.
pub record Connection : Type 0 where
  pub handle_id : ℕ
  pub registered : Bool
  pub recv_dist_block_rsp : Bool
  pub peer_id : ℕ
  pub cas_port : ℕ
  pub cas_ip_addr : List ℕ
  pub regist_max_block_id : ℕ
  pub regist_max_block_hash : List ℕ

-- The codes of vbh_comm_error_code.h that the service answers with.
pub data ReturnCode : Type 0 where
  ok_type order_is_not_ready block_cache_already_full system_id_used_up : ReturnCode
  network_error decode_error system_error logic_failed_error : ReturnCode

unfoldable pub is_ok : ReturnCode → Bool
is_ok ReturnCode.ok_type = true
is_ok r = false

-- CVbhAllocatedKey and the keys of a transaction, in an answer.
pub record RegistRsp : Type 0 where
  pub return_code : ReturnCode
  pub allocated_id : ℕ
  pub sequence_number : ℕ
  pub block_id : ℕ
  pub trans_idx : ℕ

pub record ProposalRsp : Type 0 where
  pub return_code : ReturnCode
  pub sequence_number : ℕ
  pub block_id : ℕ
  pub trans_idx : ℕ
  pub info_ids : List (ℕ × ℕ)

-- The messages, the first number of each the connection, and the timers. The flag of a
-- sync_block_notify is EN_HASH_NOT_VERIFY, its negation EN_HASH_INVALID.
pub data Out : Type 0 where
  distribute_block_req : ℕ → ℕ → List ℕ → Out
  query_max_block_info_req : ℕ → ℕ → Out
  master_sync_req : ℕ → ℕ → Out
  regist_rsp : ℕ → RegistRsp → Out
  proposal_rsp : ℕ → ProposalRsp → Out
  sync_block_notify : ℕ → Bool → ℕ → ℕ → ℕ → Out
  sync_master_notify : ℕ → ℕ → List ℕ → List ℕ → Out
  backspace_block_notify : ℕ → ℕ → ℕ → Out
  invalid_peer_notify : ℕ → Out
  set_resend_timer cancel_resend_timer : ℕ → Out
  set_repersist_timer cancel_repersist_timer set_pack_timer reset_pack_timer : Out
  cancel_wait_timer cancel_pack_timer cancel_sync_timer reset_sync_timer
        cancel_follower_sync_timer :
      Out

pub record Cps (T : Type 0) : Type 0 where
  pub cps_state : CpsState
  pub order_id : ℕ
  pub kafka_value : ℕ
  pub pack_max_block_size_value : ℕ
  pub block_buf_initial_size : ℕ
  pub max_cache_block_count : ℕ
  pub connections : List Connection
  pub queue_block_num : ℕ
  pub queue_block_info : List LocalBlockInfo
  pub cur_block_info : Option LocalBlockInfo
  pub block_encoder : Encoder
  pub dist_block_rsp_peer_count : ℕ
  pub config : Config
  pub cfg_log : ConfigLog
  pub ws_version_table : T
  pub kafka_block_id : ℕ
  pub kafka_block_hash : List ℕ
  pub net : List Bool
  pub out : List Out

-- CBcBlockHeader::EN_SIZE
abbrev pub header_size : ℕ
header_size = 84

unfoldable pub new_block : ℕ → ℕ → ℕ → LocalBlockInfo
new_block size id last = record {
  block_buf_size = size;
  block_data_len = header_size;
  block_id = id;
  last_aloc_ws_id = last;
  block_hash = [];
  block_data = [];
}

module _ {T : Type 0} where
  unfoldable pub post : Out → Cps T → Cps T
  post o c = record c { out = c.out ++ o ∷ [] }

  -- SendHtsMsg; the Bool tells whether it returned 0.
  unfoldable pub send : Out → Cps T → Cps T × Bool
  unfolding post
  send o c = elim c.net [
    | [] ↦ (post o c, true)
    | true ∷ net ↦ (post o (record c { net = net }), true)
    | false ∷ net ↦ (record c { net = net }, false)
  ]

  unfoldable pub front : Cps T → Option LocalBlockInfo
  front c = elim c.queue_block_info [ [] ↦ none | b ∷ bs ↦ some b ]
