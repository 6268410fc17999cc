-- ===== src/Block/Decode.antt =====
-- vbhDecodeMemBcBloc on the bytes of a packed block.
use vorder.Base.{
  ℕ, suc, ◌+◌, ◌-◌, ◌^◌, ◌<◌, ◌≡◌, refl, ap, arith, List, [], ◌∷◌, ◌++◌, length, length-append,
  length-map, map, some, true, Bool, ltb, ◌==◌, ◌&&◌, take,
}
use mathlib.Core.List.{append_assoc}
use vorder.Merkel.{build_merkle_tree, get_root, clear, Tree, add_leaf_node}
use vorder.Merkel.Leaves.{add_leaves, build_merkle_tree-add_leaves}
use vorder.Block.{
  Encoder, Header, BlockCodec, Transaction, regist, propose, init_set_encode_buffer,
  encode_block_header, get_trans_type, encode_transaction, decode_transaction, decode_transactions,
  decode_body, decode_mem_bc_block, is_equal, regist_user_type, propose_type,
}
use vorder.Block.Encode.{concat, add_transactions, add_transactions-shape}

is_equal_self : (xs : List ℕ) → is_equal xs xs ≡ true
unfolding is_equal
is_equal_self [] = refl
is_equal_self (x ∷ xs) = ground (arith, is_equal_self xs)

take_front : (xs ys : List ℕ) → take (length (xs ++ ys) - length ys) (xs ++ ys) ≡ xs
take_front [] ys = let n : length ys - length ys ≡ 0 = omega arith in rw n refl
take_front (x ∷ xs) ys =
    let n : suc (length (xs ++ ys)) - length ys ≡ suc (length (xs ++ ys) - length ys) =
      omega (arith, length-append xs ys) in
    rw n (ap (◌∷◌ x) (take_front xs ys))

module _ (codec : BlockCodec) where
  -- The type in a transaction's sequence number of 32 bits is the transaction's.
  unfoldable pub is_typed : Transaction → Bool
  unfolding get_trans_type
  is_typed (regist n r) = ltb n (2 ^ 32) && (get_trans_type n == regist_user_type)
  is_typed (propose n p) = ltb n (2 ^ 32) && (get_trans_type n == propose_type)

  unfoldable pub are_typed : List Transaction → Bool
  unfolding is_typed
  are_typed [] = true
  are_typed (t ∷ ts) = is_typed t && are_typed ts

  decode-encode_transaction :
      (t : Transaction) (rest : List ℕ)
      → is_typed t ≡ true
      → decode_transaction codec (encode_transaction codec t ++ rest) ≡ some (t, rest)
  unfolding is_typed decode_transaction decode_body encode_transaction
  decode-encode_transaction (regist n r) rest h =
      let a = append_assoc (codec.encode_number n) (codec.encode_regist r) rest in
      let b = codec.decode-encode_number n (codec.encode_regist r ++ rest) (ground arith) in
      let c = codec.decode-encode_regist r rest in ground (arith, a, b, c)
  decode-encode_transaction (propose n p) rest h =
      let a = append_assoc (codec.encode_number n) (codec.encode_propose p) rest in
      let b = codec.decode-encode_number n (codec.encode_propose p ++ rest) (ground arith) in
      let c = codec.decode-encode_propose p rest in ground (arith, a, b, c)

  module _ (digest : List ℕ → List ℕ) where
    decode-encode_transactions :
        (ts : List Transaction) (t : Tree)
        → are_typed ts ≡ true
        → decode_transactions codec digest
            (length ts)
            (concat (map (encode_transaction codec) ts))
            t
          ≡ some (ts, add_leaves digest (map (encode_transaction codec) ts) t)
    unfolding are_typed decode_transactions concat add_leaves
    decode-encode_transactions [] t h = refl
    decode-encode_transactions (x ∷ ts) t h =
        let bytes = encode_transaction codec x in
        let rest = concat (map (encode_transaction codec) ts) in
        let d = decode-encode_transaction x rest (ground arith) in
        let r = decode-encode_transactions ts (add_leaf_node digest bytes t) (ground arith) in
        ground (arith, d, take_front bytes rest, r)

    -- The bytes that the encoder leaves for a list of transactions, the header it writes when it is
    -- asked for it in front, are decoded to these transactions, in order, under the block id, the time
    -- and the previous hash of that header: for at least one transaction and fewer than 2 ^ 16, each
    -- with its type in its sequence number, whatever was in the encoder and in the two trees before.
    pub decode_mem_bc_block-encode :
        (e : Encoder) (t : Transaction) (ts : List Transaction) (tree : Tree)
        → are_typed (t ∷ ts) ≡ true
        → length (t ∷ ts) < 2 ^ 16
        → let packed = encode_block_header codec digest (
            add_transactions codec digest
              (map (encode_transaction codec) (t ∷ ts))
              (init_set_encode_buffer e)) in
          (h : List ℕ) × (packed.1 ≡ some h)
          × (decode_mem_bc_block codec digest (h ++ (packed.0).body) tree
              ≡ some (record {
                trans_count = length (t ∷ ts);
                block_id = e.bc_block_header.block_id;
                block_time = e.bc_block_header.block_time;
                pre_block_hash = e.bc_block_header.pre_block_hash;
                merkel_tree_root_hash = (packed.0).bc_block_header.merkel_tree_root_hash;
                transactions = t ∷ ts;
              }))
    unfolding encode_block_header decode_mem_bc_block init_set_encode_buffer
    decode_mem_bc_block-encode e t ts tree h k =
        let bytes = encode_transaction codec t in
        let more = map (encode_transaction codec) ts in
        let n : 0 + length (bytes ∷ more) ≡ length (t ∷ ts) =
          omega (arith, length-map ts (encode_transaction codec)) in
        let s =
          add_transactions-shape codec digest (bytes ∷ more) (init_set_encode_buffer e)
            (omega (arith, n)) in
        let own = build_merkle_tree-add_leaves digest bytes more e.merkel_tree in
        let other = build_merkle_tree-add_leaves digest bytes more tree in
        let made = add_leaves digest (bytes ∷ more) (clear e.merkel_tree) in
        let read = add_leaves digest (bytes ∷ more) (clear tree) in
        let root = get_root (build_merkle_tree digest made).0 in
        let same : get_root (build_merkle_tree digest read).0 ≡ root =
          ground (arith, own.1, other.1) in
        let hd : Header = record (e.bc_block_header) {
          trans_count = length (t ∷ ts);
          merkel_tree_root_hash = root;
        } in
        let out = decode-encode_transactions (t ∷ ts) (clear tree) h in
        let law = codec.decode-encode_header hd (concat (bytes ∷ more)) in
        rw (s, n, own.0)
          (codec.encode_header hd, refl, ground (arith, law, out, same, is_equal_self root))
