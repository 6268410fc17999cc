-- ===== src/Examples/Blocks.antt =====
-- A block of two transactions.
use vorder.Base.{ℕ, ◌+◌, ◌*◌, ◌^◌, ◌%◌, ◌<◌, ◌≡◌, refl, some, List, [], ◌∷◌, ◌++◌, map, arith}
use vorder.Merkel.{new_tree}
use vorder.Block.{
  Transaction, regist, propose, combine_sequence_number, get_trans_type, sequence_number_inc,
  encode_transaction, encode_block_header, init_set_encode_buffer, decode_mem_bc_block,
}
use vorder.Block.Sequence.{get_trans_type-combine}
use vorder.Block.Encode.{add_transactions}
use vorder.Block.Decode.{are_typed, decode_mem_bc_block-encode}
use vorder.Examples.Data.{sum}
use vorder.Examples.BlockData.{block_codec, first_encoder}

get_trans_type-combine_example :
    (get_trans_type (combine_sequence_number 2 77) ≡ 2)
    × (combine_sequence_number 2 77 % 2 ^ 28 ≡ 77)
    × (combine_sequence_number 2 77 < 2 ^ 32)
    × (sequence_number_inc 77 < 2 ^ 28)
get_trans_type-combine_example = get_trans_type-combine 2 77 (omega arith) (omega arith)

abbrev one : Transaction
one =
    regist (2 ^ 28 + 5)
      (record { user_id = 3; clt_pub_key = 1 ∷ 2 ∷ []; svr_pri_key = []; envelope_key = 9 ∷ [] })

abbrev two : Transaction
two = propose (2 * 2 ^ 28 + 5) (record {
  ws_items = record { version = 0; allocated_id = 3; value = 4 ∷ [] } ∷ [];
  action_id = 0;
  user_key_id = 0;
  signature = [];
  proposal = [];
})

decode_mem_bc_block-encode_example :
    let packed = encode_block_header block_codec sum (
      add_transactions block_codec sum
        (map (encode_transaction block_codec) (one ∷ two ∷ []))
        (init_set_encode_buffer first_encoder)) in
    (h : List ℕ) × (packed.1 ≡ some h)
    × (decode_mem_bc_block block_codec sum (h ++ (packed.0).body) new_tree
        ≡ some (record {
          trans_count = 2;
          block_id = first_encoder.bc_block_header.block_id;
          block_time = first_encoder.bc_block_header.block_time;
          pre_block_hash = first_encoder.bc_block_header.pre_block_hash;
          merkel_tree_root_hash = (packed.0).bc_block_header.merkel_tree_root_hash;
          transactions = one ∷ two ∷ [];
        }))
unfolding are_typed
decode_mem_bc_block-encode_example =
    decode_mem_bc_block-encode block_codec sum first_encoder one (two ∷ []) new_tree refl
      (omega arith)
