-- ===== src/Order/Cps/Requests.antt =====
-- What OnHtsMsg(CSubmitRegistUserTransactionTasCpsReq) and OnHtsMsg(CSubmitProposalTransactionTasCpsReq)
-- of order_channel_process_service.cpp keep and answer.
use vorder.Base.{
  ℕ, ◌+◌, ◌<◌, ◌^◌, ◌≡◌, refl, false, none, some, length, arith, ltb, Option-cases, Bool-cases, ◌⊎◌,
  inl, inr,
}
use mathlib.Core.Path.{subst}
use vorder.Block.{encode_transaction, sequence_number_inc, Transaction}
use vorder.Order.Cps.{Services, Cps, LocalBlockInfo, Out, ReturnCode, send, is_ok}
use vorder.Order.Cps.Submit.{
  RegistReq, check_order_is_normal, reserve, encode_into, user_transactions, regist_user,
  answer_user, accept_user, on_submit_regist_user, last_write_set_id, no_regist,
}
use vorder.Order.Cps.Chain.{IsChained}
use vorder.Order.Cps.Submitted.{
  Bounded, SameChain-Bounded, SameChain, SameChain-trans, SameChain-IsChained, send-SameChain,
  reserve-SameChain, encode_into-SameChain, pack_if_full-IsChained, rollback_and_reset-IsChained,
}

ReturnCode-cases :
    (r : ReturnCode) → (r ≡ ReturnCode.ok_type) ⊎ ((s : ReturnCode) × (r ≡ s) × (is_ok s ≡ false))
unfolding is_ok
ReturnCode-cases ReturnCode.ok_type = inl refl
ReturnCode-cases ReturnCode.order_is_not_ready = inr (ReturnCode.order_is_not_ready, refl, refl)
ReturnCode-cases ReturnCode.block_cache_already_full =
    inr (ReturnCode.block_cache_already_full, refl, refl)
ReturnCode-cases ReturnCode.system_id_used_up = inr (ReturnCode.system_id_used_up, refl, refl)
ReturnCode-cases ReturnCode.network_error = inr (ReturnCode.network_error, refl, refl)
ReturnCode-cases ReturnCode.decode_error = inr (ReturnCode.decode_error, refl, refl)
ReturnCode-cases ReturnCode.system_error = inr (ReturnCode.system_error, refl, refl)
ReturnCode-cases ReturnCode.logic_failed_error = inr (ReturnCode.logic_failed_error, refl, refl)

module _ (sv : Services) where
  regist_user-IsChained :
      (now id : ℕ) (trs : Transaction × Transaction) (c d : Cps sv.vt.Table)
      → Bounded sv c
      → regist_user sv now id trs c ≡ some d
      → IsChained sv d
  unfolding regist_user
  regist_user-IsChained now id (tr, tp) c d i h =
      let b : Cps sv.vt.Table = record c {
        cur_block_info = elim c.cur_block_info [
          | none ↦ none
          | some b ↦ some (record b { last_aloc_ws_id = id })
        ];
      } in
      let at : SameChain sv c b = (
        refl,
        refl,
        refl,
        refl,
        refl,
        λ y is. elim (Option-cases c.cur_block_info) [
          | inl nil ↦ absurd (ground (arith, nil))
          | inr (x, cur) ↦ (x, cur, ground (arith, cur))
        ],
      ) in
      let e1 = encode_into sv tr b in
      let e = encode_into sv tp e1 in
      let s = SameChain-trans sv c b e at (
        SameChain-trans sv b e1 e (encode_into-SameChain sv tr b)
          (encode_into-SameChain sv tp e1)) in
      let r = sv.vt.append id 0 e.ws_version_table in
      let f : Cps sv.vt.Table = record e { ws_version_table = r.0 } in
      let (v, bound) =
        SameChain-Bounded sv e f
          (
            refl,
            refl,
            refl,
            refl,
            sv.vt.package_num-append id 0 e.ws_version_table,
            λ y is. (y, is, refl),
          )
          (SameChain-Bounded sv c e s i) in
      elim (Bool-cases r.1) [
        | inl on ↦ pack_if_full-IsChained sv now f d v bound (ground (arith, on))
        | inr off ↦ rollback_and_reset-IsChained sv f d v (ground (arith, off))
      ]

  answer_user-IsChained :
      (rsp : Out) (now id : ℕ) (trs : Transaction × Transaction) (c d : Cps sv.vt.Table)
      → Bounded sv c
      → answer_user sv rsp now id trs c ≡ some d
      → IsChained sv d
  unfolding answer_user
  answer_user-IsChained rsp now id trs c d i h =
      let s = SameChain-Bounded sv c (send rsp c).0 (send-SameChain sv rsp c) i in
      elim (Bool-cases ((send rsp c).1)) [
        | inl on ↦ regist_user-IsChained now id trs (send rsp c).0 d s (ground (arith, on))
        | inr off ↦
            let same : (send rsp c).0 ≡ d = ground (arith, off) in
            subst (λ x. IsChained sv x) same s.0
      ]

  accept_user-IsChained :
      (tas now : ℕ) (req : RegistReq) (b : LocalBlockInfo) (c d : Cps sv.vt.Table)
      → Bounded sv c
      → c.cur_block_info ≡ some b
      → accept_user sv tas now req b c ≡ some d
      → IsChained sv d
  unfolding accept_user
  accept_user-IsChained tas now req b c d i cur h =
      let id = b.last_aloc_ws_id + 1 in
      let trs = user_transactions sv id c.config.sequence_number req in
      let size =
        length (encode_transaction sv.codec trs.0) + length (encode_transaction sv.codec trs.1) in
      let e : Cps sv.vt.Table = record c {
        config = record (c.config) {
          sequence_number = sequence_number_inc c.config.sequence_number;
        };
      } in
      answer_user-IsChained _ now id trs (reserve sv size b e) d
        (SameChain-Bounded sv c (reserve sv size b e) (reserve-SameChain sv size b e cur) i) h

  -- A request to register a user keeps the chain, whichever way it is answered: the blocks that wait
  -- follow the configuration one by one, are counted, and have each a package in the version table,
  -- and the block being filled has the next id; for fewer than 2 ^ 32 - 1 blocks that wait.
  pub on_submit_regist_user-IsChained :
      (tas now : ℕ) (req : RegistReq) (c d : Cps sv.vt.Table)
      → IsChained sv c
      → length c.queue_block_info + 1 < 2 ^ 32
      → on_submit_regist_user sv tas now req c ≡ some d
      → IsChained sv d
  unfolding on_submit_regist_user is_ok
  on_submit_regist_user-IsChained tas now req c d i bound h =
      let refused =
        λ (r : ReturnCode) (at : some (send (Out.regist_rsp tas (no_regist r)) c).0 ≡ some d).
          let same : (send (Out.regist_rsp tas (no_regist r)) c).0 ≡ d = ground (arith, at) in
          subst (λ x. IsChained sv x) same
            (SameChain-IsChained sv c (send (Out.regist_rsp tas (no_regist r)) c).0
              (send-SameChain sv (Out.regist_rsp tas (no_regist r)) c) i) in
      elim (ReturnCode-cases (check_order_is_normal c)) [
        | inl ok ↦ elim (Option-cases c.cur_block_info) [
          | inl nil ↦ absurd (ground (arith, ok, nil))
          | inr (b, cur) ↦ elim (Bool-cases (ltb b.last_aloc_ws_id last_write_set_id)) [
            | inl free ↦
                accept_user-IsChained tas now req b c d (i, bound) cur
                  (ground (arith, ok, cur, free))
            | inr full ↦ refused ReturnCode.system_id_used_up (ground (arith, ok, cur, full))
          ]
        ]
        | inr (r, is, bad) ↦ refused r (ground (arith, is, bad))
      ]
