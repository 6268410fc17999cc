-- ===== src/Storage/Record.antt =====
-- A record of fixed length in a page: the host codec of the DSC library, outside the repository, and
-- the calls that CVbhRecordTable makes of it (vbh_record_table.inl).
use vorder.Base.{
  ℕ, ◌+◌, ◌*◌, ◌/◌, ◌%◌, ◌≤◌, ◌<◌, ◌≡◌, ◌≢◌, ◌⊎◌, inl, inr, ap, ◌∙◌, Bool-cases, ltb, ltb→lt, List,
  slice, splice, length, arith, length-splice, slice-splice_self, slice-splice_before,
  slice-splice_after,
}
use native.Mathlib.Nat.{div-add-mod}
use vorder.Storage.Cache.{Layout, get_offset, get_page_id}

-- What the DSC host codec does with a record type: a fixed number of bytes, decoded to the record.
pub record HostCodec (R : Type 0) : Type 0 where
  pub size : ℕ
  pub encode : R → List ℕ
  pub decode : List ℕ → R
  pub encode_size : (r : R) → length (encode r) ≡ size
  pub decode-encode : (r : R) → decode (encode r) ≡ r

-- The geometry that Open sets up: the records of a page fit into it.
pub record IsLayout (l : Layout) : Type 0 where
  pub some_record : 0 < l.page_record_num
  pub fits : l.page_record_num * l.record_len ≤ l.page_size

module _ {R : Type 0} (codec : HostCodec R) where
  -- HostDecode at the record's place in its page.
  unfoldable pub read_record : Layout → ℕ → List ℕ → R
  unfolding get_offset
  read_record l record_id content = codec.decode (slice (get_offset l record_id) codec.size content)

  -- Encode at the record's place in its page.
  unfoldable pub write_record : Layout → ℕ → R → List ℕ → List ℕ
  unfolding get_offset
  write_record l record_id r content = splice (get_offset l record_id) (codec.encode r) content

pub get_offset-fits :
    (l : Layout) (record_id : ℕ) → IsLayout l → get_offset l record_id + l.record_len ≤ l.page_size
unfolding get_offset
get_offset-fits l record_id h =
    let m : record_id % l.page_record_num < l.page_record_num = grind arith in
    let b : (record_id % l.page_record_num + 1) * l.record_len ≤ l.page_record_num * l.record_len =
      grind arith in
    omega arith

pub slots_apart : (x y len : ℕ) → x < y → x * len + len ≤ y * len
slots_apart x y len h = let m : (x + 1) * len ≤ y * len = grind arith in omega arith

-- Two records of one page do not overlap.
pub get_offset_apart :
    (l : Layout) (a b : ℕ)
    → IsLayout l
    → a ≢ b
    → get_page_id l a ≡ get_page_id l b
    → (get_offset l a + l.record_len ≤ get_offset l b)
      ⊎ (get_offset l b + l.record_len ≤ get_offset l a)
unfolding get_offset get_page_id
get_offset_apart l a b h ne e =
    let da = div-add-mod a l.page_record_num in
    let db = div-add-mod b l.page_record_num in
    let ra = a % l.page_record_num in
    let rb = b % l.page_record_num in
    let quotients : l.page_record_num * (a / l.page_record_num)
        ≡ l.page_record_num * (b / l.page_record_num) =
      ap (λ (q : ℕ). l.page_record_num * q) e in
    elim (Bool-cases (ltb ra rb)) [
      | inl lt ↦ inl (slots_apart ra rb l.record_len (ltb→lt ra rb lt))
      | inr ge ↦ elim (Bool-cases (ltb rb ra)) [
        | inl gt ↦ inr (slots_apart rb ra l.record_len (ltb→lt rb ra gt))
        | inr le ↦ let same : ra ≡ rb = ground arith in absurd (ne (omega arith))
      ]
    ]

module _ {R : Type 0} (codec : HostCodec R) (l : Layout) where
  -- A record written into a page of full size is read back from it, for a codec of the layout's record
  -- length and a layout whose records fit into a page.
  pub read_record-write_record :
      (record_id : ℕ) (r : R) (content : List ℕ)
      → IsLayout l
      → codec.size ≡ l.record_len
      → length content ≡ l.page_size
      → read_record codec l record_id (write_record codec l record_id r content) ≡ r
  unfolding read_record write_record
  read_record-write_record record_id r content h s n =
      let off = get_offset l record_id in
      let fits : off + length (codec.encode r) ≤ length content =
        omega (arith, codec.encode_size r, get_offset-fits l record_id h) in
      rw (← codec.encode_size r, slice-splice_self off (codec.encode r) content fits)
        (codec.decode-encode r)

  pub read_record-write_record_ne :
      (a b : ℕ) (r : R) (content : List ℕ)
      → IsLayout l
      → codec.size ≡ l.record_len
      → a ≢ b
      → get_page_id l a ≡ get_page_id l b
      → read_record codec l b (write_record codec l a r content) ≡ read_record codec l b content
  unfolding read_record write_record
  read_record-write_record_ne a b r content h s ne e =
      let bytes = codec.encode r in
      let len : length bytes ≡ l.record_len = codec.encode_size r ∙ s in
      elim (get_offset_apart l a b h ne e) [
        | inl before ↦ ap codec.decode (
            slice-splice_after (get_offset l b) codec.size (get_offset l a) bytes content
              (omega arith))
        | inr after ↦ ap codec.decode (
            slice-splice_before (get_offset l b) codec.size (get_offset l a) bytes content
              (omega arith))
      ]

  pub length-write_record :
      (record_id : ℕ) (r : R) (content : List ℕ)
      → length (write_record codec l record_id r content) ≡ length content
  unfolding write_record
  length-write_record record_id r content =
      length-splice (get_offset l record_id) (codec.encode r) content
