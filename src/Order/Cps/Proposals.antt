-- ===== src/Order/Cps/Proposals.antt =====
-- What OnHtsMsg(CSubmitProposalTransactionTasCpsReq) of order_channel_process_service.cpp keeps.
use vorder.Base.{
  ℕ, ◌+◌, ◌<◌, ◌^◌, ◌%◌, ◌≡◌, refl, Bool, true, false, Option, none, some, List, [], ◌∷◌, length,
  arith, ◌==◌, if◌then◌else◌, Option-cases, Bool-cases, inl, inr,
}
use mathlib.Core.Path.{subst}
use vorder.Block.{
  Propose, WriteSetItem, propose, sequence_number_inc, combine_sequence_number, propose_type,
}
use vorder.Order.Cps.{Services, Cps, Out, ProposalRsp, send, is_ok}
use vorder.Order.Cps.Submit.{check_order_is_normal, reserve, encode_into, rollback_and_reset}
use vorder.Order.Cps.Proposal.{
  ProposalReq, check_ws_item_version, prepare, proposal_transaction, store_items, store_proposal,
  on_submit_proposal, creat_information_id,
}
use vorder.Order.Cps.Chain.{IsChained}
use vorder.Order.Cps.Submitted.{
  Bounded, SameChain-Bounded, SameChain, SameChain-trans, send-SameChain, reserve-SameChain,
  encode_into-SameChain, pack_if_full-IsChained, rollback_and_reset-IsChained,
}

module _ (sv : Services) where
  store_items-IsChained :
      (creates : Bool) (ws : List WriteSetItem) (c d : Cps sv.vt.Table) (stored : Bool)
      → Bounded sv c
      → store_items sv creates ws c ≡ some (d, stored)
      → IsChained sv d × (stored ≡ true → Bounded sv d)
  unfolding store_items
  store_items-IsChained creates [] c d stored i h =
      let same : c ≡ d = ground arith in
      (subst (λ x. IsChained sv x) same i.0, λ _. subst (Bounded sv) same i)
  store_items-IsChained creates (w ∷ ws) c d stored i h =
      let step =
        if creates
        then sv.vt.append w.allocated_id w.version c.ws_version_table
        else sv.vt.update w.allocated_id w.version c.ws_version_table in
      let e : Cps sv.vt.Table = record c {
        cur_block_info =
            if creates
            then elim c.cur_block_info [
              | none ↦ none
              | some b ↦ some (record b { last_aloc_ws_id = (b.last_aloc_ws_id + 1) % 2 ^ 64 })
            ]
            else c.cur_block_info;
        ws_version_table = step.0;
      } in
      let num : sv.vt.package_num step.0 ≡ sv.vt.package_num c.ws_version_table = ground (
        arith,
        sv.vt.package_num-append w.allocated_id w.version c.ws_version_table,
        sv.vt.package_num-update w.allocated_id w.version c.ws_version_table,
      ) in
      let s : SameChain sv c e = (
        refl,
        refl,
        refl,
        refl,
        num,
        λ y is. elim (Option-cases c.cur_block_info) [
          | inl nil ↦ absurd (ground (arith, nil))
          | inr (x, cur) ↦ (x, cur, ground (arith, cur))
        ],
      ) in
      let j = SameChain-Bounded sv c e s i in
      elim (Bool-cases step.1) [
        | inl on ↦ store_items-IsChained creates ws e d stored j (ground (arith, on))
        | inr off ↦ elim (Option-cases (rollback_and_reset sv e)) [
          | inl nil ↦ absurd (ground (arith, off, nil))
          | inr (f, is) ↦
              let same : f ≡ d = ground (arith, off, is) in
              (
                subst (λ x. IsChained sv x) same (rollback_and_reset-IsChained sv e f j.0 is),
                λ on. absurd (ground (arith, off, is, on)),
              )
        ]
      ]

  store_proposal-IsChained :
      (now : ℕ) (creates : Bool) (sn : ℕ) (p : Propose) (c d : Cps sv.vt.Table)
      → Bounded sv c
      → store_proposal sv now creates sn p c ≡ some d
      → IsChained sv d
  unfolding store_proposal
  store_proposal-IsChained now creates sn p c d i h =
      let e = encode_into sv (propose sn p) c in
      let j = SameChain-Bounded sv c e (encode_into-SameChain sv (propose sn p) c) i in
      elim (Option-cases (store_items sv creates p.ws_items e)) [
        | inl nil ↦ absurd (ground (arith, nil))
        | inr ((f, true), is) ↦
            let (k, bound) = (store_items-IsChained creates p.ws_items e f true j is).1 refl in
            pack_if_full-IsChained sv now f d k bound (ground (arith, is))
        | inr ((f, false), is) ↦
            let same : f ≡ d = ground (arith, is) in
            subst (λ x. IsChained sv x) same
              (store_items-IsChained creates p.ws_items e f false j is).0
      ]

  check_ws_item_version-package_num :
      (ws : List WriteSetItem) (t : sv.vt.Table)
      → sv.vt.package_num (check_ws_item_version sv ws t).0 ≡ sv.vt.package_num t
  unfolding check_ws_item_version
  check_ws_item_version-package_num [] t = refl
  check_ws_item_version-package_num (w ∷ ws) t = ground (
    arith,
    sv.vt.package_num-read w.allocated_id t,
    check_ws_item_version-package_num ws (sv.vt.read w.allocated_id t).0,
  )

  proposal_transaction-SameChain :
      (req : ProposalReq) (c d : Cps sv.vt.Table) (rsp : ProposalRsp) (p : Option Propose)
      → proposal_transaction sv req c ≡ some (d, rsp, p)
      → SameChain sv c d
  unfolding proposal_transaction prepare
  proposal_transaction-SameChain req c d rsp p h =
      let refused : c ≡ d → SameChain sv c d = λ same.
        subst (λ x. SameChain sv c x) same (refl, refl, refl, refl, refl, λ y is. (y, is, refl)) in
      elim (Bool-cases (is_ok (check_order_is_normal c))) [
        | inr bad ↦ refused (ground (arith, bad))
        | inl ok ↦ elim (Option-cases (sv.codec.decode_propose req.trans_content)) [
          | inl nil ↦ refused (ground (arith, ok, nil))
          | inr ((q, rest), is) ↦ elim (Option-cases c.cur_block_info) [
            | inl nil ↦ absurd (ground (arith, ok, is, nil))
            | inr (b, cur) ↦
                let t =
                  if req.action_id == creat_information_id
                  then c.ws_version_table
                  else (check_ws_item_version sv q.ws_items c.ws_version_table).0 in
                let num : sv.vt.package_num t ≡ sv.vt.package_num c.ws_version_table =
                  ground (arith, check_ws_item_version-package_num q.ws_items c.ws_version_table) in
                let sn = combine_sequence_number propose_type c.config.sequence_number in
                let size = length (sv.codec.encode_number sn) + length req.trans_content in
                let e : Cps sv.vt.Table = record c {
                  ws_version_table = t;
                  config = record (c.config) {
                    sequence_number = sequence_number_inc c.config.sequence_number;
                  };
                } in
                let s : SameChain sv c e = (refl, refl, refl, refl, num, λ y is. (y, is, refl)) in
                let same : reserve sv size b e ≡ d = ground (arith, ok, is, cur) in
                subst (λ x. SameChain sv c x) same
                  (SameChain-trans sv c e (reserve sv size b e) s
                    (reserve-SameChain sv size b e cur))
          ]
        ]
      ]

  -- A proposal keeps the chain, whichever way it is answered: the blocks that wait follow the
  -- configuration one by one, are counted, and have each a package in the version table, and the block
  -- being filled has the next id; for fewer than 2 ^ 32 - 1 blocks that wait.
  pub on_submit_proposal-IsChained :
      (tas now : ℕ) (req : ProposalReq) (c d : Cps sv.vt.Table)
      → IsChained sv c
      → length c.queue_block_info + 1 < 2 ^ 32
      → on_submit_proposal sv tas now req c ≡ some d
      → IsChained sv d
  unfolding on_submit_proposal
  on_submit_proposal-IsChained tas now req c d i bound h =
      elim (Option-cases (proposal_transaction sv req c)) [
        | inl nil ↦ absurd (ground (arith, nil))
        | inr ((u, rsp, p), is) ↦
            let o = Out.proposal_rsp tas rsp in
            let e = (send o u).0 in
            let j =
              SameChain-Bounded sv c e
                (SameChain-trans sv c u e (proposal_transaction-SameChain req c u rsp p is)
                  (send-SameChain sv o u))
                (i, bound) in
            let done : e ≡ d → IsChained sv d = λ same. subst (λ x. IsChained sv x) same j.0 in
            elim (Option-cases p) [
              | inl nil ↦ done (ground (arith, is, nil))
              | inr (q, some_q) ↦ elim (Bool-cases (send o u).1) [
                | inr failed ↦ done (ground (arith, is, some_q, failed))
                | inl sent ↦
                    store_proposal-IsChained now (req.action_id == creat_information_id)
                      rsp.sequence_number q e d j (ground (arith, is, some_q, sent))
              ]
            ]
      ]
