-- ===== src/Examples/Data.antt =====
-- Concrete stores and codecs over lists of numbers.
use vorder.Base.{
  ℕ, zero, suc, ◌+◌, ◌*◌, ◌%◌, ◌≡◌, ◌≢◌, refl, ap, ◌∙◌, Bool, true, Option, none, some, List, [],
  ◌∷◌, ◌++◌, if◌then◌else◌, ◌==◌, length, arith,
}
use vorder.Storage.PageStore.{PageStore}
use vorder.Storage.Record.{HostCodec}
use vorder.Storage.MultiUpdate.{CodecPage, LogCodec}

abbrev StoreState : Type 0
StoreState = ℕ → Option (List ℕ)

-- Pages of `n` cells.
sized : ℕ → Option (List ℕ) → Option (List ℕ)
sized n o = elim o [ none ↦ none | some c ↦ if length c == n then some c else none ]

store_read : ℕ → StoreState → ℕ → Option (List ℕ)
unfolding sized
store_read n s i = sized n (s i)

put_at : ℕ → List ℕ → StoreState → ℕ → Option (List ℕ)
put_at i c s j = if i == j then some c else s j

store_write : Bool → ℕ → List ℕ → StoreState → StoreState × Bool
unfolding put_at
store_write is_new i c s = (put_at i c s, true)

store_read_size :
    (n : ℕ) (s : StoreState) (i : ℕ) (c : List ℕ) → store_read n s i ≡ some c → length c ≡ n
unfolding store_read
store_read_size n s i c h = ground arith

store_write_read :
    (n : ℕ) (s : StoreState) (b : Bool) (i : ℕ) (c : List ℕ)
    → length c ≡ n
    → store_read n (store_write b i c s).0 i ≡ some c
unfolding store_read store_write put_at
store_write_read n s b i c h = ground arith

put_at_ne : (i j : ℕ) (c : List ℕ) (s : StoreState) → i ≢ j → put_at i c s j ≡ s j
unfolding put_at
put_at_ne i j c s h = ground arith

store_write_keeps :
    (n : ℕ) (s : StoreState) (b : Bool) (i j : ℕ) (c d : List ℕ)
    → i ≢ j
    → store_read n s j ≡ some d
    → store_read n (store_write b i c s).0 j ≡ some d
unfolding store_read store_write
store_write_keeps n s b i j c d h k = ap (sized n) (put_at_ne i j c s h) ∙ k

unfoldable pub page_store : PageStore
unfolding store_read store_write store_read_size store_write_read store_write_keeps put_at_ne
page_store = record {
  State = StoreState;
  page_size = 4;
  read_page = store_read 4;
  write_page = store_write;
  read_size = λ s i c h. store_read_size 4 s i c h;
  write_read = λ s b i c h w. store_write_read 4 s b i c h;
  write_keeps = λ s b i j c d h w ne r. store_write_keeps 4 s b i j c d ne r;
}

unfoldable pub number_codec : HostCodec ℕ
number_codec = record {
  size = 1;
  encode = λ n. n ∷ [];
  decode = λ bytes. elim bytes [ [] ↦ 0 | n ∷ rest ↦ n ];
  encode_size = λ n. refl;
  decode-encode = λ n. refl;
}

-- A list behind its length.
unfoldable pub put : List ℕ → List ℕ
put xs = length xs ∷ xs

split : ℕ → List ℕ → Option (List ℕ × List ℕ)
split zero xs = some ([], xs)
split (suc n) [] = none
split (suc n) (x ∷ xs) = elim (split n xs) [ none ↦ none | some (ys, rest) ↦ some (x ∷ ys, rest) ]

unfoldable pub get : List ℕ → Option (List ℕ × List ℕ)
unfolding split
get [] = none
get (n ∷ xs) = split n xs

split-length : (xs rest : List ℕ) → split (length xs) (xs ++ rest) ≡ some (xs, rest)
unfolding split
split-length [] rest = refl
split-length (x ∷ xs) rest = ground (arith, split-length xs rest)

pub get-put : (xs rest : List ℕ) → get (put xs ++ rest) ≡ some (xs, rest)
unfolding get put
get-put xs rest = split-length xs rest

put_page : CodecPage → List ℕ
unfolding put
put_page p = (if p.is_new then 1 else 0) ∷ p.page_id ∷ put p.page_data

get_page : List ℕ → Option (CodecPage × List ℕ)
unfolding get
get_page (b ∷ i ∷ xs) = elim (get xs) [
  | none ↦ none
  | some (c, rest) ↦ some (record { is_new = b == 1; page_id = i; page_data = c }, rest)
]
get_page xs = none

get-put_page : (p : CodecPage) (rest : List ℕ) → get_page (put_page p ++ rest) ≡ some (p, rest)
unfolding put_page get_page
get-put_page p rest = let b = get-put p.page_data rest in ground (arith, b)

unfoldable pub page_codec : LogCodec
unfolding put_page get_page get-put_page get-put split-length
page_codec = record {
  encode_count = λ n. n ∷ [];
  decode_count = λ bytes. elim bytes [ [] ↦ none | n ∷ rest ↦ some (n, rest) ];
  encode_page = put_page;
  decode_page = get_page;
  decode-encode_count = λ n rest h. refl;
  decode-encode_page = get-put_page;
}

-- A digest of one cell.
unfoldable pub sum : List ℕ → List ℕ
sum xs = total xs ∷ []
  where
    total : List ℕ → ℕ
    total [] = 7
    total (x ∷ ys) = (x + 31 * total ys) % 1000003
