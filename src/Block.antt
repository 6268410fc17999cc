-- ===== src/Block.antt =====
-- vbh_block_codec.{h,inl,cpp} and vbh_transaction_def.{h,inl}: sequence numbers, the encoder of the
-- block that an order node packs, and the decoder of a packed block. The DSC library's codecs are the
-- parameter `codec`, vbhDigest is `digest`.
pub mod Sequence
pub mod Encode
pub mod Decode
use vorder.Base.{
  ℕ, zero, suc, ◌+◌, ◌-◌, ◌*◌, ◌/◌, ◌%◌, ◌^◌, ◌<◌, ◌≡◌, Bool, true, false, ◌||◌, Option, none, some,
  List, [], ◌∷◌, ◌++◌, ltb, if◌then◌else◌, ◌==◌, length, take,
}
use vorder.Merkel.{Tree, add_leaf_node, build_merkle_tree, get_root, clear}

-- Bitwise or, of the lowest `n` bits.
unfoldable pub lor : ℕ → ℕ → ℕ → ℕ
lor zero a b = 0
lor (suc n) a b =
    let rest = lor n (a / 2) (b / 2) in
    if (a % 2 == 1) || (b % 2 == 1) then 1 + 2 * rest else 2 * rest

-- EN_TYPE_BITS is 4 of the 32 bits.
unfoldable pub combine_sequence_number : ℕ → ℕ → ℕ
unfolding lor
combine_sequence_number type serial = lor 32 (type * 2 ^ 28 % 2 ^ 32) serial

unfoldable pub get_trans_type : ℕ → ℕ
get_trans_type n = n / 2 ^ 28 % 2 ^ 8

-- DEF_TRANSACTION_SEQUENCE_NUMBER
abbrev pub max_sequence_number : ℕ
max_sequence_number = 2 ^ 28 - 1

unfoldable pub sequence_number_inc : ℕ → ℕ
sequence_number_inc n = if ltb n max_sequence_number then n + 1 else 0

abbrev pub regist_user_type : ℕ
regist_user_type = 1

abbrev pub propose_type : ℕ
propose_type = 2

-- CBcBlockHeader
pub record Header : Type 0 where
  pub order_id : ℕ
  pub trans_count : ℕ
  pub block_id : ℕ
  pub block_time : ℕ
  pub pre_block_hash : List ℕ
  pub merkel_tree_root_hash : List ℕ

-- CRegistUserTransaction
pub record RegistUser : Type 0 where
  pub user_id : ℕ
  pub clt_pub_key : List ℕ
  pub svr_pri_key : List ℕ
  pub envelope_key : List ℕ

-- CVbhWriteSetItem
pub record WriteSetItem : Type 0 where
  pub version : ℕ
  pub allocated_id : ℕ
  pub value : List ℕ

-- CProposeTransaction
pub record Propose : Type 0 where
  pub ws_items : List WriteSetItem
  pub action_id : ℕ
  pub user_key_id : ℕ
  pub signature : List ℕ
  pub proposal : List ℕ

-- What the encoders and decoders of the DSC library do, outside the repository, for a header, a
-- sequence number, and the two kinds of transaction, `RegistUser` and `Propose`.
pub record BlockCodec : Type 0 where
  pub encode_header : Header → List ℕ
  pub decode_header : List ℕ → Option (Header × List ℕ)
  pub encode_number : ℕ → List ℕ
  pub decode_number : List ℕ → Option (ℕ × List ℕ)
  pub encode_regist : RegistUser → List ℕ
  pub decode_regist : List ℕ → Option (RegistUser × List ℕ)
  pub encode_propose : Propose → List ℕ
  pub decode_propose : List ℕ → Option (Propose × List ℕ)
  pub decode-encode_header :
      (h : Header) (rest : List ℕ) → decode_header (encode_header h ++ rest) ≡ some (h, rest)
  pub decode-encode_number :
      (n : ℕ) (rest : List ℕ)
      → n < 2 ^ 32
      → decode_number (encode_number n ++ rest) ≡ some (n, rest)
  pub decode-encode_regist :
      (r : RegistUser) (rest : List ℕ) → decode_regist (encode_regist r ++ rest) ≡ some (r, rest)
  pub decode-encode_propose :
      (p : Propose) (rest : List ℕ) → decode_propose (encode_propose p ++ rest) ≡ some (p, rest)

-- CBlockEncoder; `body` is what it has written behind the header.
pub record Encoder : Type 0 where
  pub bc_block_header : Header
  pub merkel_tree : Tree
  pub body : List ℕ

-- A transaction with its sequence number.
pub data Transaction : Type 0 where
  regist : ℕ → RegistUser → Transaction
  propose : ℕ → Propose → Transaction

-- CMemBcBlock
pub record MemBlock : Type 0 where
  pub trans_count : ℕ
  pub block_id : ℕ
  pub block_time : ℕ
  pub pre_block_hash : List ℕ
  pub merkel_tree_root_hash : List ℕ
  pub transactions : List Transaction

unfoldable pub init_set_encode_buffer : Encoder → Encoder
unfolding clear
init_set_encode_buffer e = record e {
  bc_block_header = record (e.bc_block_header) { trans_count = 0 };
  merkel_tree = clear e.merkel_tree;
  body = [];
}

-- The comparison of two hashes, byte by byte.
unfoldable pub is_equal : List ℕ → List ℕ → Bool
is_equal [] [] = true
is_equal (a ∷ xs) (b ∷ bs) = if a == b then is_equal xs bs else false
is_equal xs bs = false

module _ (codec : BlockCodec) where
  unfoldable pub encode_transaction : Transaction → List ℕ
  encode_transaction (regist n r) = codec.encode_number n ++ codec.encode_regist r
  encode_transaction (propose n p) = codec.encode_number n ++ codec.encode_propose p

  module _ (digest : List ℕ → List ℕ) where
    -- BeginEncodeTransaction, the writing of `bytes`, and EndEncodeTransaction.
    unfoldable pub add_transaction : List ℕ → Encoder → Encoder
    unfolding add_leaf_node
    add_transaction bytes e = record e {
      bc_block_header = record (e.bc_block_header) {
        trans_count = (e.bc_block_header.trans_count + 1) % 2 ^ 16;
      };
      merkel_tree = add_leaf_node digest bytes e.merkel_tree;
      body = e.body ++ bytes;
    }

    -- EncodeBlockHeader, with the bytes of the header.
    unfoldable pub encode_block_header : Encoder → Encoder × Option (List ℕ)
    unfolding build_merkle_tree get_root
    encode_block_header e =
        let (t, built) = build_merkle_tree digest e.merkel_tree in
        let h = record (e.bc_block_header) { merkel_tree_root_hash = get_root t } in
        if built
        then (record e { bc_block_header = h; merkel_tree = t }, some (codec.encode_header h))
        else (record e { merkel_tree = t }, none)

  -- The switch on the type of a transaction.
  unfoldable pub decode_body : ℕ → List ℕ → Option (Transaction × List ℕ)
  unfolding get_trans_type
  decode_body n bytes =
      if get_trans_type n == propose_type
      then elim (codec.decode_propose bytes) [
        | some (p, rest) ↦ some (propose n p, rest)
        | none ↦ none
      ]
      else if get_trans_type n == regist_user_type
      then elim (codec.decode_regist bytes) [
        | some (r, rest) ↦ some (regist n r, rest)
        | none ↦ none
      ]
      else none

  unfoldable pub decode_transaction : List ℕ → Option (Transaction × List ℕ)
  unfolding decode_body
  decode_transaction bytes = elim (codec.decode_number bytes) [
    | some (n, rest) ↦ decode_body n rest
    | none ↦ none
  ]

  module _ (digest : List ℕ → List ℕ) where
    -- The loop over the transactions, each added to the tree as the bytes it was decoded from.
    unfoldable pub decode_transactions : ℕ → List ℕ → Tree → Option (List Transaction × Tree)
    unfolding decode_transaction add_leaf_node
    decode_transactions zero bytes t = some ([], t)
    decode_transactions (suc n) bytes t = elim (decode_transaction bytes) [
      | none ↦ none
      | some (tr, rest) ↦
          elim (decode_transactions n rest
            (add_leaf_node digest (take (length bytes - length rest) bytes) t)) [
              | none ↦ none
              | some (trs, t') ↦ some (tr ∷ trs, t')
            ]
    ]

    -- vbhDecodeMemBcBloc
    unfoldable pub decode_mem_bc_block : List ℕ → Tree → Option (MemBlock)
    unfolding decode_transactions build_merkle_tree get_root clear is_equal
    decode_mem_bc_block bytes tree = elim (codec.decode_header bytes) [
      | none ↦ none
      | some (h, rest) ↦ elim (decode_transactions h.trans_count rest (clear tree)) [
        | none ↦ none
        | some (trs, t) ↦
            if is_equal (get_root (build_merkle_tree digest t).0) h.merkel_tree_root_hash
            then some (record {
              trans_count = h.trans_count;
              block_id = h.block_id;
              block_time = h.block_time;
              pre_block_hash = h.pre_block_hash;
              merkel_tree_root_hash = h.merkel_tree_root_hash;
              transactions = trs;
            })
            else none
      ]
    ]
