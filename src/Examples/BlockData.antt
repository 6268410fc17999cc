-- ===== src/Examples/BlockData.antt =====
-- A concrete codec of blocks, and an encoder.
use vorder.Base.{ℕ, zero, suc, ◌≡◌, refl, Option, none, some, List, [], ◌∷◌, ◌++◌, length, arith}
use mathlib.Core.List.{append_assoc}
use vorder.Merkel.{new_tree}
use vorder.Block.{Encoder, Header, BlockCodec, RegistUser, Propose, WriteSetItem}
use vorder.Examples.Data.{put, get, get-put}

put_items : List WriteSetItem → List ℕ
unfolding put
put_items [] = []
put_items (w ∷ ws) = w.version ∷ w.allocated_id ∷ put w.value ++ put_items ws

get_items : ℕ → List ℕ → Option (List WriteSetItem × List ℕ)
unfolding get
get_items zero xs = some ([], xs)
get_items (suc n) (v ∷ i ∷ xs) = elim (get xs) [
  | none ↦ none
  | some (c, rest) ↦ elim (get_items n rest) [
    | none ↦ none
    | some (ws, more) ↦ some (record { version = v; allocated_id = i; value = c } ∷ ws, more)
  ]
]
get_items (suc n) xs = none

get-put_items :
    (ws : List WriteSetItem) (rest : List ℕ)
    → get_items (length ws) (put_items ws ++ rest) ≡ some (ws, rest)
unfolding put_items get_items
get-put_items [] rest = refl
get-put_items (w ∷ ws) rest =
    let a = append_assoc (put w.value) (put_items ws) rest in
    let b = get-put w.value (put_items ws ++ rest) in
    let c = get-put_items ws rest in ground (arith, a, b, c)

-- Two and three lists, one behind the other.
put2 : List ℕ → List ℕ → List ℕ
unfolding put
put2 a b = put a ++ put b

get2 : List ℕ → Option (List ℕ × List ℕ × List ℕ)
unfolding get
get2 xs = elim (get xs) [
  | none ↦ none
  | some (a, rest) ↦ elim (get rest) [ none ↦ none | some (b, more) ↦ some (a, b, more) ]
]

get2-put2 : (a b rest : List ℕ) → get2 (put2 a b ++ rest) ≡ some (a, b, rest)
unfolding get2 put2
get2-put2 a b rest =
    let x = append_assoc (put a) (put b) rest in
    ground (arith, x, get-put a (put b ++ rest), get-put b rest)

encode_propose : Propose → List ℕ
unfolding put_items put2
encode_propose p =
    length p.ws_items ∷ p.action_id ∷ p.user_key_id ∷ put_items p.ws_items
    ++ put2 p.signature p.proposal

decode_propose : List ℕ → Option (Propose × List ℕ)
unfolding get_items get2
decode_propose (n ∷ a ∷ u ∷ xs) = elim (get_items n xs) [
  | none ↦ none
  | some (ws, rest) ↦ elim (get2 rest) [
    | none ↦ none
    | some (x, y, more) ↦ some (
      record { ws_items = ws; action_id = a; user_key_id = u; signature = x; proposal = y },
      more,
    )
  ]
]
decode_propose xs = none

decode-encode_propose :
    (p : Propose) (rest : List ℕ) → decode_propose (encode_propose p ++ rest) ≡ some (p, rest)
unfolding decode_propose encode_propose
decode-encode_propose p rest =
    let a = append_assoc (put_items p.ws_items) (put2 p.signature p.proposal) rest in
    let b = get-put_items p.ws_items (put2 p.signature p.proposal ++ rest) in
    let c = get2-put2 p.signature p.proposal rest in ground (arith, a, b, c)

encode_regist : RegistUser → List ℕ
unfolding put2 put
encode_regist r = r.user_id ∷ put2 r.clt_pub_key r.svr_pri_key ++ put r.envelope_key

decode_regist : List ℕ → Option (RegistUser × List ℕ)
unfolding get2 get
decode_regist [] = none
decode_regist (u ∷ xs) = elim (get2 xs) [
  | none ↦ none
  | some (a, b, rest) ↦ elim (get rest) [
    | none ↦ none
    | some (c, more) ↦
        some (record { user_id = u; clt_pub_key = a; svr_pri_key = b; envelope_key = c }, more)
  ]
]

decode-encode_regist :
    (r : RegistUser) (rest : List ℕ) → decode_regist (encode_regist r ++ rest) ≡ some (r, rest)
unfolding decode_regist encode_regist
decode-encode_regist r rest =
    let a = append_assoc (put2 r.clt_pub_key r.svr_pri_key) (put r.envelope_key) rest in
    let b = get2-put2 r.clt_pub_key r.svr_pri_key (put r.envelope_key ++ rest) in
    let c = get-put r.envelope_key rest in ground (arith, a, b, c)

encode_header : Header → List ℕ
unfolding put2
encode_header h =
    h.order_id
    ∷ h.trans_count
    ∷ h.block_id
    ∷ h.block_time
    ∷ put2 h.pre_block_hash h.merkel_tree_root_hash

decode_header : List ℕ → Option (Header × List ℕ)
unfolding get2
decode_header (o ∷ n ∷ i ∷ t ∷ xs) = elim (get2 xs) [
  | none ↦ none
  | some (a, b, rest) ↦ some (
    record {
      order_id = o;
      trans_count = n;
      block_id = i;
      block_time = t;
      pre_block_hash = a;
      merkel_tree_root_hash = b;
    },
    rest,
  )
]
decode_header xs = none

decode-encode_header :
    (h : Header) (rest : List ℕ) → decode_header (encode_header h ++ rest) ≡ some (h, rest)
unfolding decode_header encode_header
decode-encode_header h rest =
    let c = get2-put2 h.pre_block_hash h.merkel_tree_root_hash rest in ground (arith, c)

unfoldable pub block_codec : BlockCodec
unfolding encode_header decode_header encode_regist decode_regist encode_propose decode_propose
    decode-encode_propose decode-encode_regist decode-encode_header get2-put2 get-put_items
block_codec = record {
  encode_header = encode_header;
  decode_header = decode_header;
  encode_number = λ n. n ∷ [];
  decode_number = λ bytes. elim bytes [ [] ↦ none | n ∷ rest ↦ some (n, rest) ];
  encode_regist = encode_regist;
  decode_regist = decode_regist;
  encode_propose = encode_propose;
  decode_propose = decode_propose;
  decode-encode_header = λ h rest. decode-encode_header h rest;
  decode-encode_number = λ n rest h. refl;
  decode-encode_regist = λ r rest. decode-encode_regist r rest;
  decode-encode_propose = λ p rest. decode-encode_propose p rest;
}

abbrev pub first_encoder : Encoder
first_encoder = record {
  bc_block_header = record {
    order_id = 1;
    trans_count = 0;
    block_id = 6;
    block_time = 100;
    pre_block_hash = 8 ∷ [];
    merkel_tree_root_hash = [];
  };
  merkel_tree = new_tree;
  body = [];
}
