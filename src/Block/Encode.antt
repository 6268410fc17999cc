-- ===== src/Block/Encode.antt =====
-- CBlockEncoder over a list of transactions.
use vorder.Base.{ℕ, suc, ◌+◌, ◌%◌, ◌^◌, ◌<◌, ◌≡◌, refl, arith, List, [], ◌∷◌, ◌++◌, length}
use mathlib.Core.List.{append_assoc, append-nil}
use vorder.Merkel.Leaves.{add_leaves}
use vorder.Block.{Encoder, BlockCodec, add_transaction}

unfoldable pub concat : List (List ℕ) → List ℕ
concat [] = []
concat (b ∷ bs) = b ++ concat bs

module _ (codec : BlockCodec) (digest : List ℕ → List ℕ) where
  unfoldable pub add_transactions : List (List ℕ) → Encoder → Encoder
  unfolding add_transaction
  add_transactions [] e = e
  add_transactions (b ∷ bs) e = add_transactions bs (add_transaction codec digest b e)

  pub add_transactions-shape :
      (bs : List (List ℕ)) (e : Encoder)
      → e.bc_block_header.trans_count + length bs < 2 ^ 16
      → add_transactions bs e ≡ record e {
        bc_block_header = record (e.bc_block_header) {
          trans_count = e.bc_block_header.trans_count + length bs;
        };
        merkel_tree = add_leaves digest bs e.merkel_tree;
        body = e.body ++ concat bs;
      }
  unfolding add_transactions add_transaction add_leaves concat
  add_transactions-shape [] e h =
      let n : e.bc_block_header.trans_count + 0 ≡ e.bc_block_header.trans_count = omega arith in
      rw (n, append-nil e.body) refl
  add_transactions-shape (b ∷ bs) e h =
      let c : (e.bc_block_header.trans_count + 1) % 2 ^ 16 ≡ e.bc_block_header.trans_count + 1 =
        omega arith in
      let d : e.bc_block_header.trans_count + 1 + length bs
          ≡ e.bc_block_header.trans_count + suc (length bs) =
        omega arith in
      let r = add_transactions-shape bs (add_transaction codec digest b e) (omega (arith, c)) in
      ground (arith, r, c, d, append_assoc e.body b (concat bs))
