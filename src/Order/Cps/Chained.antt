-- ===== src/Order/Cps/Chained.antt =====
-- Packing, rolling back and storing keep the chain of order_channel_process_service.cpp.
use vorder.Base.{
  ℕ, ◌+◌, ◌<◌, ◌^◌, ◌≡◌, refl, sym, ap, ◌∙◌, true, false, some, List, [], ◌∷◌, ◌++◌, length,
  length-append, arith, ◌==◌, Option-cases, Bool-cases, ◌⊎◌, inl, inr,
}
use mathlib.Core.Path.{subst}
use vorder.Block.{Header, Encoder, encode_block_header, init_set_encode_buffer}
use vorder.Order.Cps.{Services, Cps, LocalBlockInfo, new_block}
use vorder.Order.Cps.Pack.{
  last_block, distribute_block, pack_block, pre_hash, on_time_pack_block, rollback_part_block,
}
use vorder.Order.Cps.Chain.{
  IsChained, Chain-append, end_id, end_hash, end_id-append, last_block-end,
}

-- What the chain depends on.
abbrev pub SameBlocks : {T : Type 0} → Cps T → Cps T → Type 0
SameBlocks c d =
    (d.config ≡ c.config)
    × (d.queue_block_info ≡ c.queue_block_info)
    × (d.queue_block_num ≡ c.queue_block_num)
    × (d.ws_version_table ≡ c.ws_version_table)
    × (d.cur_block_info ≡ c.cur_block_info)

pub distribute_block-SameBlocks :
    {T : Type 0} (c d : Cps T) → distribute_block c ≡ some d → SameBlocks c d
unfolding distribute_block
distribute_block-SameBlocks c d h =
    (ground arith, ground arith, ground arith, ground arith, ground arith)

module _ (sv : Services) where
  pub SameBlocks-IsChained :
      (c d : Cps sv.vt.Table) → SameBlocks c d → IsChained sv c → IsChained sv d
  SameBlocks-IsChained c d (cfg, q, n, t, b) (p, k, m, f) =
      (rw (cfg, q) p, rw (n, q) k, rw (t, q) m, λ x e. rw (cfg, q) (f x (sym b ∙ e)))

  -- No block waits, or there is a last one.
  queue-cases :
      (n id : ℕ) (hash : List ℕ) (q : List LocalBlockInfo)
      → n ≡ length q
      → (((n == 0) ≡ true) × (end_id id q ≡ id) × (end_hash hash q ≡ hash))
        ⊎ (((n == 0) ≡ false)
            × ((l : LocalBlockInfo) × (last_block q ≡ some l)
                × (end_id id q ≡ l.block_id)
                × (end_hash hash q ≡ l.block_hash)))
  unfolding end_hash end_id
  queue-cases n id hash [] h = inl (ground arith, refl, refl)
  queue-cases n id hash (x ∷ q) h = inr (ground arith, last_block-end id hash x q)

  pre_hash-end :
      (c : Cps sv.vt.Table)
      → IsChained sv c
      → pre_hash c ≡ some (end_hash c.config.block_hash c.queue_block_info)
  unfolding pre_hash
  pre_hash-end c (p, k, m, f) =
      elim (queue-cases c.queue_block_num c.config.block_id c.config.block_hash c.queue_block_info
        k) [
          | inl (e, f, g) ↦ ground (arith, e, g)
          | inr (e, (l, is, f, g)) ↦ ground (arith, e, is, g)
        ]

  encode_block_header-header :
      (e : Encoder) (bytes : List ℕ)
      → (encode_block_header sv.codec sv.digest e).1 ≡ some bytes
      → (h : Header) × (bytes ≡ sv.codec.encode_header h)
        × (h.block_id ≡ e.bc_block_header.block_id)
        × (h.pre_block_hash ≡ e.bc_block_header.pre_block_hash)
  unfolding encode_block_header
  encode_block_header-header e bytes k = (
    ((encode_block_header sv.codec sv.digest e).0).bc_block_header,
    ground arith,
    ground arith,
    ground arith,
  )

  pack_block-IsChained :
      (now : ℕ) (b : LocalBlockInfo) (c d : Cps sv.vt.Table)
      → IsChained sv c
      → c.cur_block_info ≡ some b
      → length c.queue_block_info + 1 < 2 ^ 32
      → pack_block sv now (end_hash c.config.block_hash c.queue_block_info) b c ≡ some d
      → IsChained sv d
  unfolding pack_block new_block
  pack_block-IsChained now b c d (p, k, m, f) cur bound h =
      let q = c.queue_block_info in
      let pre = end_hash c.config.block_hash q in
      let e : Encoder = record (c.block_encoder) {
        bc_block_header = record (c.block_encoder.bc_block_header) {
          order_id = c.order_id;
          block_id = b.block_id;
          block_time = now;
          pre_block_hash = pre;
        };
      } in
      let r = encode_block_header sv.codec sv.digest e in
      elim (Option-cases r.1) [
        | inl nil ↦ absurd (ground (arith, nil))
        | inr (bytes, enc) ↦
            let (x, same, id, hash) = encode_block_header-header e bytes enc in
            let last = f b cur in
            let packed : LocalBlockInfo = record b {
              block_hash = sv.digest (bytes ++ (r.0).body);
              block_data = bytes ++ (r.0).body;
            } in
            let cfg : d.config ≡ c.config = ground (arith, enc) in
            let queue : d.queue_block_info ≡ q ++ packed ∷ [] = ground (arith, enc) in
            let n : d.queue_block_num ≡ c.queue_block_num + 1 = ground (arith, enc) in
            let table : d.ws_version_table ≡ sv.vt.pack_modify c.ws_version_table =
              ground (arith, enc) in
            let next : d.cur_block_info
                ≡ some (new_block c.block_buf_initial_size (b.block_id + 1) b.last_aloc_ws_id) =
              ground (arith, enc) in
            (
              rw (cfg, queue)
                  (Chain-append sv.codec sv.digest c.config.block_id c.config.block_hash q packed p
                    (last, refl, (x, (r.0).body, ground (arith, same), id ∙ last, hash))),
              omega (arith, n, k, ap length queue, length-append q (packed ∷ [])),
              omega (
                arith,
                ap sv.vt.package_num table,
                sv.vt.package_num-pack c.ws_version_table,
                m,
                ap length queue,
                length-append q (packed ∷ []),
              ),
              λ y is. ground (arith, next, cfg, queue, end_id-append c.config.block_id q packed),
            )
      ]

  -- Packing keeps the chain: when the blocks that wait follow the configuration one by one, each by
  -- its id and by the hash of the one before it in its header, are counted, and have each a package in
  -- the version table, then so it is after a pack timeout, and the block being filled has the next id;
  -- for fewer than 2 ^ 32 - 1 blocks that wait.
  pub on_time_pack_block-IsChained :
      (now : ℕ) (c d : Cps sv.vt.Table)
      → IsChained sv c
      → length c.queue_block_info + 1 < 2 ^ 32
      → on_time_pack_block sv now c ≡ some d
      → IsChained sv d
  unfolding on_time_pack_block
  on_time_pack_block-IsChained now c d i bound h =
      let pre = pre_hash-end c i in
      elim (Bool-cases (c.block_encoder.bc_block_header.trans_count == 0)) [
        | inl e ↦ let same : c ≡ d = ground (arith, e) in subst (λ x. IsChained sv x) same i
        | inr e ↦ elim (Option-cases c.cur_block_info) [
          | inl nil ↦ absurd (ground (arith, e, nil))
          | inr (b, cur) ↦
              elim (Option-cases
                (pack_block sv now (end_hash c.config.block_hash c.queue_block_info) b c)) [
                  | inl nil ↦ absurd (ground (arith, e, cur, pre, nil))
                  | inr (u, packed) ↦
                      let v = pack_block-IsChained now b c u i cur bound packed in
                      elim (Bool-cases (u.queue_block_num == 1)) [
                        | inl one ↦
                            SameBlocks-IsChained u d
                              (distribute_block-SameBlocks u d
                                (ground (arith, e, cur, pre, packed, one)))
                              v
                        | inr more ↦
                            let same : u ≡ d = ground (arith, e, cur, pre, packed, more) in
                            subst (λ x. IsChained sv x) same v
                      ]
                ]
        ]
      ]

  -- The id and the last allocated id of the last block of a queue, or those before it.
  unfoldable pub last_ids : ℕ × ℕ → List LocalBlockInfo → ℕ × ℕ
  last_ids ids [] = ids
  last_ids ids (b ∷ bs) = last_ids (b.block_id, b.last_aloc_ws_id) bs

  last_block-last_ids :
      (ids : ℕ × ℕ) (b : LocalBlockInfo) (bs : List LocalBlockInfo)
      → (l : LocalBlockInfo) × (last_block (b ∷ bs) ≡ some l)
        × (last_ids ids (b ∷ bs) ≡ (l.block_id, l.last_aloc_ws_id))
  unfolding last_block last_ids
  last_block-last_ids ids b [] = (b, refl, refl)
  last_block-last_ids ids b (x ∷ bs) =
      let (l, e, f) = last_block-last_ids (b.block_id, b.last_aloc_ws_id) x bs in
      (l, ground (arith, e), f)

  -- A chained queue is empty, as its count says, or has a last block.
  last_ids-cases :
      (ids : ℕ × ℕ) (n : ℕ) (q : List LocalBlockInfo)
      → n ≡ length q
      → (((n == 0) ≡ true) × (last_ids ids q ≡ ids))
        ⊎ (((n == 0) ≡ false)
            × ((l : LocalBlockInfo) × (last_block q ≡ some l)
                × (last_ids ids q ≡ (l.block_id, l.last_aloc_ws_id))))
  unfolding last_ids
  last_ids-cases ids n [] h = inl (ground arith, refl)
  last_ids-cases ids n (b ∷ q) h = inr (ground arith, last_block-last_ids ids b q)

  -- The block that RollbackPartBlock begins with.
  rollback_part_block-last_ids :
      (c d : Cps sv.vt.Table)
      → c.queue_block_num ≡ length c.queue_block_info
      → rollback_part_block sv c ≡ some d
      → let ids = last_ids (c.config.block_id, c.config.last_aloc_ws_id) c.queue_block_info in
        (d.cur_block_info ≡ some (new_block c.pack_max_block_size_value (ids.0 + 1) ids.1))
        × (d.ws_version_table ≡ sv.vt.rollback_unpack_cache c.ws_version_table)
  unfolding rollback_part_block new_block init_set_encode_buffer
  rollback_part_block-last_ids c d n h =
      let ids : ℕ × ℕ = (c.config.block_id, c.config.last_aloc_ws_id) in
      elim (Option-cases c.cur_block_info) [
        | inl nothing ↦ absurd (ground (arith, nothing))
        | inr (b, cur) ↦ elim (last_ids-cases ids c.queue_block_num c.queue_block_info n) [
          | inl (e, same) ↦ rw same (ground (arith, e, cur), ground (arith, e, cur))
          | inr (e, (l, is, same)) ↦
              rw same (ground (arith, e, cur, is), ground (arith, e, cur, is))
        ]
      ]

  rollback_part_block-blocks :
      (b : LocalBlockInfo) (c : Cps sv.vt.Table)
      → IsChained sv c
      → c.cur_block_info ≡ some b
      → (d : Cps sv.vt.Table) × (rollback_part_block sv c ≡ some d)
        × IsChained sv d
        × (d.queue_block_info ≡ c.queue_block_info)
        × (d.config ≡ c.config)
        × (d.block_encoder.bc_block_header.trans_count ≡ 0)
  unfolding rollback_part_block new_block init_set_encode_buffer
  rollback_part_block-blocks b c (p, k, m, f) cur =
      let kept = λ (x : LocalBlockInfo). record c {
        ws_version_table = sv.vt.rollback_unpack_cache c.ws_version_table;
        cur_block_info = some x;
        block_encoder = init_set_encode_buffer c.block_encoder;
      } in
      let table = sv.vt.package_num-rollback c.ws_version_table ∙ m in
      elim (queue-cases c.queue_block_num c.config.block_id c.config.block_hash c.queue_block_info
        k) [
          | inl (e, g, _) ↦
              let x =
                new_block c.pack_max_block_size_value (c.config.block_id + 1)
                  c.config.last_aloc_ws_id in
              (
                kept x,
                ground (arith, e, cur),
                (p, k, table, λ y is. ground (arith, g, is)),
                refl,
                refl,
                refl,
              )
          | inr (e, (l, is, g, _)) ↦
              let x = new_block c.pack_max_block_size_value (l.block_id + 1) l.last_aloc_ws_id in
              (
                kept x,
                ground (arith, e, cur, is),
                (p, k, table, λ y is. ground (arith, g, is)),
                refl,
                refl,
                refl,
              )
        ]

  -- Dropping the block being filled keeps the chain and the blocks that wait, rolls the version table
  -- back, and begins an empty block whose id and last allocated id follow those of the last block that
  -- waits, or those of the configuration where none waits; it is possible whenever there is such a
  -- block.
  pub rollback_part_block-IsChained :
      (b : LocalBlockInfo) (c : Cps sv.vt.Table)
      → IsChained sv c
      → c.cur_block_info ≡ some b
      → (d : Cps sv.vt.Table) × (rollback_part_block sv c ≡ some d)
        × IsChained sv d
        × (d.queue_block_info ≡ c.queue_block_info)
        × (d.config ≡ c.config)
        × (d.block_encoder.bc_block_header.trans_count ≡ 0)
        × (d.ws_version_table ≡ sv.vt.rollback_unpack_cache c.ws_version_table)
        × (let ids = last_ids (c.config.block_id, c.config.last_aloc_ws_id) c.queue_block_info in
            d.cur_block_info ≡ some (new_block c.pack_max_block_size_value (ids.0 + 1) ids.1))
  rollback_part_block-IsChained b c h cur =
      let (d, e, chained, queue, config, count) = rollback_part_block-blocks b c h cur in
      let (ids, table) = rollback_part_block-last_ids c d h.1 e in
      (d, e, chained, queue, config, count, table, ids)
