-- ===== src/Order/Cps/Proposal.antt =====
-- OnHtsMsg(CSubmitProposalTransactionTasCpsReq), ProposalTransaction and CheckWsItemVersion of
-- order_channel_process_service.cpp.
use vorder.Base.{
  ℕ, ◌+◌, ◌-◌, ◌%◌, ◌^◌, Bool, true, false, ◌&&◌, not, Option, none, some, List, [], ◌∷◌,
  if◌then◌else◌, ◌==◌, leb, length,
}
use vorder.Block.{
  propose, Propose, WriteSetItem, combine_sequence_number, sequence_number_inc, propose_type,
}
use vorder.Order.Cps.{Services, Cps, LocalBlockInfo, Out, ReturnCode, ProposalRsp, send, is_ok}
use vorder.Order.Cps.Submit.{
  check_order_is_normal, reserve, encode_into, pack_if_full, rollback_and_reset,
}

pub record ProposalReq : Type 0 where
  pub action_id : ℕ
  pub trans_content : List ℕ

-- CREAT_INFORMATION_ID
abbrev pub creat_information_id : ℕ
creat_information_id = 1

unfoldable pub no_proposal : ReturnCode → ProposalRsp
no_proposal r = record {
  return_code = r;
  sequence_number = 0;
  block_id = 0;
  trans_idx = 0;
  info_ids = [];
}

-- The write-set items of an information, under the ids from `id` on.
unfoldable pub new_items : ℕ → List WriteSetItem → List WriteSetItem
new_items id [] = []
new_items id (w ∷ ws) = record w { allocated_id = id % 2 ^ 64; version = 0 } ∷ new_items (id + 1) ws

unfoldable pub item_ids : ℕ → List WriteSetItem → List (ℕ × ℕ)
item_ids sn [] = []
item_ids sn (w ∷ ws) = (w.allocated_id, sn) ∷ item_ids sn ws

module _ (sv : Services) where
  unfoldable pub check_ws_item_version : List WriteSetItem → sv.vt.Table → sv.vt.Table × ReturnCode
  check_ws_item_version [] t = (t, ReturnCode.ok_type)
  check_ws_item_version (w ∷ ws) t =
      let (u, version) = sv.vt.read w.allocated_id t in
      let rest = check_ws_item_version ws u in
      elim version [
        | none ↦ (u, ReturnCode.system_error)
        | some v ↦
            if leb w.version v && not (w.version == 2 ^ 32 - 1)
            then (u, ReturnCode.logic_failed_error)
            else rest
      ]

  -- The end of ProposalTransaction, on the current block `b`: room for the transaction, its sequence
  -- number, and the ids of an information.
  unfoldable pub prepare :
      ProposalReq
      → Propose
      → LocalBlockInfo
      → Cps sv.vt.Table
      → Cps sv.vt.Table × ProposalRsp × Propose
  unfolding reserve combine_sequence_number sequence_number_inc new_items item_ids
  prepare req p b c =
      let sn = combine_sequence_number propose_type c.config.sequence_number in
      let d =
        reserve sv (length (sv.codec.encode_number sn) + length req.trans_content) b (record c {
          config = record (c.config) {
            sequence_number = sequence_number_inc c.config.sequence_number;
          };
        }) in
      let creates = req.action_id == creat_information_id in
      let ws = if creates then new_items (b.last_aloc_ws_id + 1) p.ws_items else p.ws_items in
      (
        d,
        record {
          return_code = ReturnCode.ok_type;
          sequence_number = sn;
          block_id = b.block_id;
          trans_idx = c.block_encoder.bc_block_header.trans_count;
          info_ids = if creates then item_ids sn ws else [];
        },
        record p { ws_items = ws },
      )

  -- ProposalTransaction. The result of CheckWsItemVersion is compared with the return code, and not
  -- assigned to it.
  unfoldable pub proposal_transaction :
      ProposalReq → Cps sv.vt.Table → Option (Cps sv.vt.Table × ProposalRsp × Option Propose)
  unfolding check_order_is_normal check_ws_item_version prepare no_proposal is_ok
  proposal_transaction req c =
      let code = check_order_is_normal c in
      if is_ok code
      then elim (sv.codec.decode_propose req.trans_content) [
        | none ↦ some (c, no_proposal ReturnCode.decode_error, none)
        | some (p, _) ↦
            let t =
              if req.action_id == creat_information_id
              then c.ws_version_table
              else (check_ws_item_version p.ws_items c.ws_version_table).0 in
            elim c.cur_block_info [
              | none ↦ none
              | some b ↦
                  let (d, rsp, q) = prepare req p b (record c { ws_version_table = t }) in
                  some (d, rsp, some q)
            ]
      ]
      else some (c, no_proposal code, none)

  -- The loop that stores the versions; false when one of them failed and the block was rolled back.
  unfoldable pub store_items :
      Bool → List WriteSetItem → Cps sv.vt.Table → Option (Cps sv.vt.Table × Bool)
  unfolding rollback_and_reset
  store_items creates [] c = some (c, true)
  store_items creates (w ∷ ws) c =
      let d = record c {
        cur_block_info =
            if creates
            then elim c.cur_block_info [
              | none ↦ none
              | some b ↦ some (record b { last_aloc_ws_id = (b.last_aloc_ws_id + 1) % 2 ^ 64 })
            ]
            else c.cur_block_info;
      } in
      let (t, stored) =
        if creates
        then sv.vt.append w.allocated_id w.version c.ws_version_table
        else sv.vt.update w.allocated_id w.version c.ws_version_table in
      let e = record d { ws_version_table = t } in
      let rest = store_items creates ws e in
      if stored
      then rest
      else elim (rollback_and_reset sv e) [ none ↦ none | some f ↦ some (f, false) ]

  -- What follows the answer, when it was sent and the proposal accepted.
  unfoldable pub store_proposal :
      ℕ → Bool → ℕ → Propose → Cps sv.vt.Table → Option (Cps sv.vt.Table)
  unfolding encode_into store_items pack_if_full
  store_proposal now creates sn p c =
      elim (store_items creates p.ws_items (encode_into sv (propose sn p) c)) [
        | none ↦ none
        | some (d, true) ↦ pack_if_full sv now d
        | some (d, false) ↦ some d
      ]

  -- OnHtsMsg(CSubmitProposalTransactionTasCpsReq) of the connection `tas`, at the time `now`.
  unfoldable pub on_submit_proposal :
      ℕ → ℕ → ProposalReq → Cps sv.vt.Table → Option (Cps sv.vt.Table)
  unfolding proposal_transaction send store_proposal
  on_submit_proposal tas now req c = elim (proposal_transaction req c) [
    | none ↦ none
    | some (d, rsp, p) ↦
        let (e, sent) = send (Out.proposal_rsp tas rsp) d in
        elim p [
          | none ↦ some e
          | some q ↦
              if sent
              then store_proposal now (req.action_id == creat_information_id) rsp.sequence_number q
                  e
              else some e
        ]
  ]
