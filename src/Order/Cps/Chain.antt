-- ===== src/Order/Cps/Chain.antt =====
-- The queue of packed blocks of order_channel_process_service.cpp as a chain.
use vorder.Base.{ℕ, ◌+◌, ◌≡◌, refl, some, List, [], ◌∷◌, ◌++◌, length, arith}
use vorder.Block.{Header, BlockCodec}
use vorder.Order.Cps.{Services, Cps, LocalBlockInfo}
use vorder.Order.Cps.Pack.{last_block}

-- The id, the hash and the last allocated id of a list of blocks, behind a configuration.
unfoldable pub end_id : ℕ → List LocalBlockInfo → ℕ
end_id id [] = id
end_id id (b ∷ bs) = end_id b.block_id bs

unfoldable pub end_hash : List ℕ → List LocalBlockInfo → List ℕ
end_hash h [] = h
end_hash h (b ∷ bs) = end_hash b.block_hash bs

module _ (codec : BlockCodec) (digest : List ℕ → List ℕ) where
  -- The block behind the one with the id `id` and the hash `hash`: it has the next id, its header
  -- names this id and the hash, and its own hash is the digest of its data.
  abbrev pub Follows : ℕ → List ℕ → LocalBlockInfo → Type 0
  Follows id hash b =
      (b.block_id ≡ id + 1)
      × (b.block_hash ≡ digest b.block_data)
      × ((h : Header) × (rest : List ℕ) × (b.block_data ≡ codec.encode_header h ++ rest)
          × (h.block_id ≡ id + 1)
          × (h.pre_block_hash ≡ hash))

  -- Blocks each of which follows the one before it.
  pub data Chain : ℕ → List ℕ → List LocalBlockInfo → Type 0 where
    chain_end : {id : ℕ} {hash : List ℕ} → Chain id hash []
    chain_link :
        {id : ℕ} {hash : List ℕ} (b : LocalBlockInfo) (bs : List LocalBlockInfo)
        → Follows id hash b
        → Chain b.block_id b.block_hash bs
        → Chain id hash (b ∷ bs)

  pub Chain-append :
      (id : ℕ) (hash : List ℕ) (bs : List LocalBlockInfo) (b : LocalBlockInfo)
      → Chain id hash bs
      → Follows (end_id id bs) (end_hash hash bs) b
      → Chain id hash (bs ++ b ∷ [])
  unfolding end_id end_hash
  Chain-append id hash [] b c f = chain_link b [] f chain_end
  Chain-append id hash (x ∷ bs) b (chain_link _ _ g rest) f =
      chain_link x (bs ++ b ∷ []) g (Chain-append x.block_id x.block_hash bs b rest f)

pub end_id-append :
    (id : ℕ) (bs : List LocalBlockInfo) (b : LocalBlockInfo) → end_id id (bs ++ b ∷ []) ≡ b.block_id
unfolding end_id
end_id-append id [] b = refl
end_id-append id (x ∷ bs) b = end_id-append x.block_id bs b

-- What `last_block` finds.
pub last_block-end :
    (id : ℕ) (hash : List ℕ) (b : LocalBlockInfo) (bs : List LocalBlockInfo)
    → (l : LocalBlockInfo) × (last_block (b ∷ bs) ≡ some l)
      × (end_id id (b ∷ bs) ≡ l.block_id)
      × (end_hash hash (b ∷ bs) ≡ l.block_hash)
unfolding last_block end_id end_hash
last_block-end id hash b [] = (b, refl, refl, refl)
last_block-end id hash b (x ∷ bs) =
    let (l, e, f, g) = last_block-end b.block_id b.block_hash x bs in (l, ground (arith, e), f, g)

module _ (sv : Services) where
  -- The blocks that wait follow the configuration as a chain, their number is counted, each has its
  -- package in the version table, and the block being filled comes behind the last of them.
  abbrev pub IsChained : Cps sv.vt.Table → Type 0
  IsChained c =
      Chain sv.codec sv.digest c.config.block_id c.config.block_hash c.queue_block_info
      × (c.queue_block_num ≡ length c.queue_block_info)
      × (sv.vt.package_num c.ws_version_table ≡ length c.queue_block_info)
      × ((b : LocalBlockInfo)
          → c.cur_block_info ≡ some b
          → b.block_id ≡ end_id c.config.block_id c.queue_block_info + 1)
