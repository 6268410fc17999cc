-- ===== src/Order/Cps/Submit.antt =====
-- OnHtsMsg(CSubmitRegistUserTransactionTasCpsReq) of order_channel_process_service.cpp, and the room
-- for a transaction in the current block.
use vorder.Base.{
  ℕ, ◌+◌, ◌-◌, ◌^◌, ◌||◌, Option, none, some, List, [], ◌∷◌, if◌then◌else◌, ◌==◌, leb, ltb, length,
}
use vorder.Block.{
  Transaction, regist, propose, add_transaction, encode_transaction, combine_sequence_number,
  sequence_number_inc, regist_user_type, propose_type,
}
use vorder.Order.Cps.{
  Services, Cps, LocalBlockInfo, Out, ReturnCode, RegistRsp, header_size, post, send, is_normal,
}
use vorder.Order.Cps.Pack.{on_time_pack_block, rollback_part_block}

pub record RegistReq : Type 0 where
  pub user_info : List ℕ
  pub clt_pub_key : List ℕ
  pub svr_pri_key : List ℕ
  pub envelope_key : List ℕ

-- EN_MAX_TRANSACTION_COUNT_IN_BLOCK, DEF_LAST_WRITE_SET_ALLOCATED_ID
abbrev pub max_transaction_count : ℕ
max_transaction_count = 2 ^ 16 - 1

abbrev pub last_write_set_id : ℕ
last_write_set_id = 2 ^ 64 - 1

-- DEF_INVALID_CC_ACTION_ID and DEF_INVALID_WRITE_SET_ID, the defaults of CProposeTransaction
abbrev invalid_id : ℕ
invalid_id = 0

-- The first error of a request, before the current block is looked at: CheckOrderIsNormal.
unfoldable pub check_order_is_normal : {T : Type 0} → Cps T → ReturnCode
unfolding is_normal
check_order_is_normal c =
    if is_normal c.cps_state
    then if ltb c.queue_block_num c.max_cache_block_count
      then ReturnCode.ok_type
      else ReturnCode.block_cache_already_full
    else ReturnCode.order_is_not_ready

-- The answer of an error.
unfoldable pub no_regist : ReturnCode → RegistRsp
no_regist r = record {
  return_code = r;
  allocated_id = 0;
  sequence_number = 0;
  block_id = 0;
  trans_idx = 0;
}

module _ (sv : Services) where
  -- The current block, with room for `size` more bytes.
  unfoldable pub reserve : ℕ → LocalBlockInfo → Cps sv.vt.Table → Cps sv.vt.Table
  reserve size b c =
      let n = size + b.block_data_len in
      if ltb b.block_buf_size n
      then record c {
        block_buf_initial_size = n;
        cur_block_info = some (record b { block_buf_size = n });
      }
      else c

  -- The encoding of a transaction into the current block, up to the new m_nBlockDataLen.
  unfoldable pub encode_into : Transaction → Cps sv.vt.Table → Cps sv.vt.Table
  unfolding add_transaction encode_transaction
  encode_into tr c =
      let e = add_transaction sv.codec sv.digest (encode_transaction sv.codec tr) c.block_encoder in
      record c {
        block_encoder = e;
        cur_block_info = elim c.cur_block_info [
          | none ↦ none
          | some b ↦ some (record b { block_data_len = header_size + length e.body })
        ];
      }

  unfoldable pub pack_if_full : ℕ → Cps sv.vt.Table → Option (Cps sv.vt.Table)
  unfolding on_time_pack_block post
  pack_if_full now c = elim c.cur_block_info [
    | none ↦ none
    | some b ↦
        if (c.block_encoder.bc_block_header.trans_count == max_transaction_count)
          || leb c.pack_max_block_size_value b.block_data_len
        then elim (on_time_pack_block sv now c) [
          | none ↦ none
          | some d ↦ some (post Out.reset_pack_timer d)
        ]
        else some c
  ]

  unfoldable pub rollback_and_reset : Cps sv.vt.Table → Option (Cps sv.vt.Table)
  unfolding rollback_part_block post
  rollback_and_reset c = elim (rollback_part_block sv c) [
    | none ↦ none
    | some d ↦ some (post Out.reset_pack_timer d)
  ]

  -- The transactions of a request, under the id `id` and the serial number `serial`.
  unfoldable pub user_transactions : ℕ → ℕ → RegistReq → Transaction × Transaction
  unfolding combine_sequence_number
  user_transactions id serial req = (
    regist (combine_sequence_number regist_user_type serial) (record {
      user_id = id;
      clt_pub_key = req.clt_pub_key;
      svr_pri_key = req.svr_pri_key;
      envelope_key = req.envelope_key;
    }),
    propose (combine_sequence_number propose_type serial) (record {
      ws_items = record { version = 0; allocated_id = id; value = req.user_info } ∷ [];
      action_id = invalid_id;
      user_key_id = invalid_id;
      signature = [];
      proposal = [];
    }),
  )

  -- What follows the answer, when it was sent: the id is taken, both transactions are encoded, and the
  -- version 0 is appended to the version table.
  unfoldable pub regist_user :
      ℕ → ℕ → Transaction × Transaction → Cps sv.vt.Table → Option (Cps sv.vt.Table)
  unfolding encode_into pack_if_full rollback_and_reset
  regist_user now id (tr, tp) c =
      let d = record c {
        cur_block_info = elim c.cur_block_info [
          | none ↦ none
          | some b ↦ some (record b { last_aloc_ws_id = id })
        ];
      } in
      let e = encode_into tp (encode_into tr d) in
      let (t, appended) = sv.vt.append id 0 e.ws_version_table in
      let f = record e { ws_version_table = t } in
      if appended then pack_if_full now f else rollback_and_reset f

  -- The sending of the answer `rsp`, and what follows it.
  unfoldable pub answer_user :
      Out → ℕ → ℕ → Transaction × Transaction → Cps sv.vt.Table → Option (Cps sv.vt.Table)
  unfolding send regist_user
  answer_user rsp now id trs c =
      let (e, sent) = send rsp c in if sent then regist_user now id trs e else some e

  -- The branch without an error, on the current block `b`.
  unfoldable pub accept_user :
      ℕ → ℕ → RegistReq → LocalBlockInfo → Cps sv.vt.Table → Option (Cps sv.vt.Table)
  unfolding reserve user_transactions encode_transaction answer_user sequence_number_inc
  accept_user tas now req b c =
      let id = b.last_aloc_ws_id + 1 in
      let trs = user_transactions id c.config.sequence_number req in
      let size =
        length (encode_transaction sv.codec trs.0) + length (encode_transaction sv.codec trs.1) in
      answer_user
        (Out.regist_rsp tas (record {
          return_code = ReturnCode.ok_type;
          allocated_id = id;
          sequence_number = combine_sequence_number propose_type c.config.sequence_number;
          block_id = b.block_id;
          trans_idx = c.block_encoder.bc_block_header.trans_count;
        }))
        now id trs
        (reserve size b (record c {
          config = record (c.config) {
            sequence_number = sequence_number_inc c.config.sequence_number;
          };
        }))

  -- OnHtsMsg(CSubmitRegistUserTransactionTasCpsReq) of the connection `tas`, at the time `now`.
  unfoldable pub on_submit_regist_user :
      ℕ → ℕ → RegistReq → Cps sv.vt.Table → Option (Cps sv.vt.Table)
  unfolding check_order_is_normal accept_user send no_regist
  on_submit_regist_user tas now req c =
      let refuse = λ (r : ReturnCode). some (send (Out.regist_rsp tas (no_regist r)) c).0 in
      elim (check_order_is_normal c) [
        | ReturnCode.ok_type ↦ elim c.cur_block_info [
          | none ↦ none
          | some b ↦
              if ltb b.last_aloc_ws_id last_write_set_id
              then accept_user tas now req b c
              else refuse ReturnCode.system_id_used_up
        ]
        | r ↦ refuse r
      ]
