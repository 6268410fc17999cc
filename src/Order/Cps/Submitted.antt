-- ===== src/Order/Cps/Submitted.antt =====
-- The two requests that add a transaction keep the chain of order_channel_process_service.cpp.
use vorder.Base.{
  ℕ, ◌+◌, ◌<◌, ◌^◌, ◌≡◌, refl, ◌∙◌, some, length, arith, ◌==◌, leb, ◌||◌, Option-cases, Bool-cases,
  inl, inr,
}
use mathlib.Core.Path.{subst}
use vorder.Block.{Transaction}
use vorder.Order.Cps.{Services, Cps, LocalBlockInfo, Out, post, send}
use vorder.Order.Cps.Pack.{on_time_pack_block, rollback_part_block}
use vorder.Order.Cps.Submit.{
  reserve, encode_into, pack_if_full, rollback_and_reset, max_transaction_count,
}
use vorder.Order.Cps.Chain.{IsChained}
use vorder.Order.Cps.Chained.{on_time_pack_block-IsChained, rollback_part_block-IsChained}

module _ (sv : Services) where
  -- The same blocks and packages, and the current block is one under the same id, if there is one.
  abbrev pub SameChain : Cps sv.vt.Table → Cps sv.vt.Table → Type 0
  SameChain c d =
      (d.config.block_id ≡ c.config.block_id)
      × (d.config.block_hash ≡ c.config.block_hash)
      × (d.queue_block_info ≡ c.queue_block_info)
      × (d.queue_block_num ≡ c.queue_block_num)
      × (sv.vt.package_num d.ws_version_table ≡ sv.vt.package_num c.ws_version_table)
      × ((y : LocalBlockInfo)
          → d.cur_block_info ≡ some y
          → (x : LocalBlockInfo) × (c.cur_block_info ≡ some x) × (y.block_id ≡ x.block_id))

  pub SameChain-trans : (c d e : Cps sv.vt.Table) → SameChain c d → SameChain d e → SameChain c e
  SameChain-trans c d e (i, h, q, n, m, f) (i', h', q', n', m', g) = (
    i' ∙ i,
    h' ∙ h,
    q' ∙ q,
    n' ∙ n,
    m' ∙ m,
    λ y is. let (x, at, same) = g y is in let (w, at', same') = f x at in (w, at', same ∙ same'),
  )

  pub SameChain-IsChained :
      (c d : Cps sv.vt.Table) → SameChain c d → IsChained sv c → IsChained sv d
  SameChain-IsChained c d (i, h, q, n, m, f) (p, k, l, g) = (
    rw (i, h, q) p,
    rw (n, q) k,
    rw (m, q) l,
    λ y is. let (x, at, same) = f y is in rw (i, q) (same ∙ g x at),
  )

  -- A chain of few enough blocks.
  abbrev pub Bounded : Cps sv.vt.Table → Type 0
  Bounded c = IsChained sv c × (length c.queue_block_info + 1 < 2 ^ 32)

  pub SameChain-Bounded : (c d : Cps sv.vt.Table) → SameChain c d → Bounded c → Bounded d
  SameChain-Bounded c d s (i, bound) =
      (SameChain-IsChained c d s i, let (_, _, q, _, _, _) = s in rw q bound)

  pub send-SameChain : (o : Out) (c : Cps sv.vt.Table) → SameChain c (send o c).0
  unfolding send post
  send-SameChain o c = (
    ground arith,
    ground arith,
    ground arith,
    ground arith,
    ground arith,
    λ y is. (y, ground arith, refl),
  )

  pub reserve-SameChain :
      (n : ℕ) (b : LocalBlockInfo) (c : Cps sv.vt.Table)
      → c.cur_block_info ≡ some b
      → SameChain c (reserve sv n b c)
  unfolding reserve
  reserve-SameChain n b c cur = (
    ground arith,
    ground arith,
    ground arith,
    ground arith,
    ground arith,
    λ y is. (b, cur, ground (arith, cur)),
  )

  pub encode_into-SameChain :
      (tr : Transaction) (c : Cps sv.vt.Table) → SameChain c (encode_into sv tr c)
  unfolding encode_into
  encode_into-SameChain tr c = (
    refl,
    refl,
    refl,
    refl,
    refl,
    λ y is. elim (Option-cases c.cur_block_info) [
      | inl nil ↦ absurd (ground (arith, nil))
      | inr (x, at) ↦ (x, at, ground (arith, at))
    ],
  )

  pub pack_if_full-IsChained :
      (now : ℕ) (c d : Cps sv.vt.Table)
      → IsChained sv c
      → length c.queue_block_info + 1 < 2 ^ 32
      → pack_if_full sv now c ≡ some d
      → IsChained sv d
  unfolding pack_if_full post
  pack_if_full-IsChained now c d i bound h = elim (Option-cases c.cur_block_info) [
    | inl nil ↦ absurd (ground (arith, nil))
    | inr (b, cur) ↦ elim (Option-cases (on_time_pack_block sv now c)) [
      | inl nil ↦ let same : c ≡ d = ground (arith, cur, nil) in subst (λ x. IsChained sv x) same i
      | inr (u, packed) ↦
          let v = on_time_pack_block-IsChained sv now c u i bound packed in
          elim (Bool-cases (
            (c.block_encoder.bc_block_header.trans_count == max_transaction_count)
            || leb c.pack_max_block_size_value b.block_data_len)) [
              | inl full ↦
                  let same : post Out.reset_pack_timer u ≡ d = ground (arith, cur, packed, full) in
                  subst (λ x. IsChained sv x) same v
              | inr room ↦
                  let same : c ≡ d = ground (arith, cur, packed, room) in
                  subst (λ x. IsChained sv x) same i
            ]
    ]
  ]

  pub rollback_and_reset-IsChained :
      (c d : Cps sv.vt.Table) → IsChained sv c → rollback_and_reset sv c ≡ some d → IsChained sv d
  unfolding rollback_and_reset post rollback_part_block
  rollback_and_reset-IsChained c d i h = elim (Option-cases c.cur_block_info) [
    | inl nil ↦ absurd (ground (arith, nil))
    | inr (b, cur) ↦
        let (u, is, v, _, _, _, _, _) = rollback_part_block-IsChained sv b c i cur in
        let same : post Out.reset_pack_timer u ≡ d = ground (arith, is) in
        subst (λ x. IsChained sv x) same v
  ]
