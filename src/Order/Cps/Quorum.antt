-- ===== src/Order/Cps/Quorum.antt =====
-- The answers of the peers to a block, in order_channel_process_service.cpp.
use vorder.Base.{
  ℕ, ◌+◌, ◌<◌, ◌^◌, ◌%◌, ◌≡◌, refl, sym, ap, ◌∙◌, Bool, true, false, some, List, [], ◌∷◌, ◌++◌,
  length, arith, ◌==◌, leb, Option-cases, Bool-cases, ◌⊎◌, inl, inr,
}
use mathlib.Core.Path.{subst}
use vorder.Order.Cps.{Services, Cps, LocalBlockInfo, Out, post, front}
use vorder.Order.Cps.Persist.{
  persistent_block_queue_header, next_block, count_rsp, on_distribute_block_rsp, find_connection,
  set_recv, cancel_timers,
}
use vorder.Order.Cps.Chain.{IsChained}
use vorder.Order.Cps.Chained.{SameBlocks, SameBlocks-IsChained, distribute_block-SameBlocks}
use vorder.Order.Cps.Recovery.{persistent_block_queue_header-IsChained}

List-cases :
    (q : List LocalBlockInfo)
    → (q ≡ []) ⊎ ((b : LocalBlockInfo) × (bs : List LocalBlockInfo) × (q ≡ b ∷ bs))
List-cases [] = inl refl
List-cases (b ∷ bs) = inr (b, bs, refl)

module _ (sv : Services) where
  next_block-IsChained :
      (failed : Cps sv.vt.Table → Cps sv.vt.Table) (c d : Cps sv.vt.Table) (stored : Bool)
      → SameBlocks c (failed c)
      → IsChained sv c
      → next_block sv failed (c, stored) ≡ some d
      → IsChained sv d × (d.config ≡ c.config)
  unfolding next_block
  next_block-IsChained failed c d true s i h = elim (Bool-cases (c.queue_block_num == 0)) [
    | inl e ↦
        let same : c ≡ d = ground (arith, e) in
        (subst (λ x. IsChained sv x) same i, ground (arith, same))
    | inr e ↦
        let t = distribute_block-SameBlocks c d (ground (arith, e)) in
        (SameBlocks-IsChained sv c d t i, t.0)
  ]
  next_block-IsChained failed c d false s i h =
      let same : failed c ≡ d = ground arith in
      (
        subst (λ x. IsChained sv x) same (SameBlocks-IsChained sv c (failed c) s i),
        ap (λ (x : Cps sv.vt.Table). x.config) (sym same) ∙ s.0,
      )

  count_rsp-IsChained :
      (i : ℕ) (c d : Cps sv.vt.Table) (b : LocalBlockInfo) (bs : List LocalBlockInfo)
      → IsChained sv c
      → c.queue_block_info ≡ b ∷ bs
      → length (b ∷ bs) < 2 ^ 32
      → count_rsp sv i c ≡ some d
      → IsChained sv d
        × ((c.dist_block_rsp_peer_count + 1) % 2 ^ 32 < c.kafka_value → d.config ≡ c.config)
  unfolding count_rsp post
  count_rsp-IsChained i c d b bs ch q bound h =
      let n = (c.dist_block_rsp_peer_count + 1) % 2 ^ 32 in
      let e : Cps sv.vt.Table = record c {
        connections = set_recv i c.connections;
        dist_block_rsp_peer_count = n;
        out = c.out ++ cancel_timers c.connections;
      } in
      elim (Bool-cases (leb c.kafka_value n)) [
        | inl enough ↦ elim (Option-cases (persistent_block_queue_header sv e)) [
          | inl nil ↦ absurd (ground (arith, enough, nil))
          | inr ((u, stored), is) ↦
              let kept =
                (persistent_block_queue_header-IsChained sv e u stored b bs ch q bound is).0 in
              let r =
                next_block-IsChained (post Out.set_repersist_timer) u d stored
                  (refl, refl, refl, refl, refl) kept (ground (arith, enough, is)) in
              (r.0, λ few. absurd (ground (arith, enough)))
        ]
        | inr few ↦
            let same : d
                ≡ post (Out.cancel_resend_timer i) (record c {
                  connections = set_recv i c.connections;
                  dist_block_rsp_peer_count = n;
                }) =
              ground (arith, few) in
            (
              subst (λ x. IsChained sv x) (sym same) ch,
              λ _. ap (λ (x : Cps sv.vt.Table). x.config) same,
            )
      ]

  -- The answer of a peer to a block keeps the chain. A block is stored by it only when it makes the
  -- number of answers counted reach the quorum: otherwise the configuration stays; for fewer than
  -- 2 ^ 32 blocks that wait.
  pub on_distribute_block_rsp-IsChained :
      (i id : ℕ) (c d : Cps sv.vt.Table)
      → IsChained sv c
      → length c.queue_block_info < 2 ^ 32
      → on_distribute_block_rsp sv i id c ≡ some d
      → IsChained sv d
        × ((c.dist_block_rsp_peer_count + 1) % 2 ^ 32 < c.kafka_value → d.config ≡ c.config)
  unfolding on_distribute_block_rsp front
  on_distribute_block_rsp-IsChained i id c d ch bound h =
      let ignored : c ≡ d → IsChained sv d × (d.config ≡ c.config) = λ same.
        (subst (λ x. IsChained sv x) same ch, ap (λ (x : Cps sv.vt.Table). x.config) (sym same)) in
      elim (List-cases c.queue_block_info) [
        | inl nil ↦ let r = ignored (ground (arith, nil)) in (r.0, λ _. r.1)
        | inr (b, bs, q) ↦ elim (Bool-cases (b.block_id == id)) [
          | inr other ↦ let r = ignored (ground (arith, q, other)) in (r.0, λ _. r.1)
          | inl own ↦ elim (Option-cases (find_connection i c.connections)) [
            | inl nil ↦ absurd (ground (arith, q, own, nil))
            | inr (p, found) ↦ elim (Bool-cases p.recv_dist_block_rsp) [
              | inl again ↦
                  let r = ignored (ground (arith, q, own, found, again)) in (r.0, λ _. r.1)
              | inr first ↦
                  count_rsp-IsChained i c d b bs ch q (rw q at bound)
                    (ground (arith, q, own, found, first))
            ]
          ]
        ]
      ]
