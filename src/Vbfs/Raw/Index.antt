-- ===== src/Vbfs/Raw/Index.antt =====
-- Adding the next entry of the index to the map, and a map over an index that agrees.
use mathlib.Core.Path.{subst}
use vorder.Base.{
  ℕ, suc, ◌+◌, ◌<◌, ◌^◌, ◌≡◌, refl, sym, ap, ◌∙◌, ◌==◌, arith, Bool-cases, inl, inr, ==_iff,
}
use vorder.Vbfs.Device.{PhyFileIndex}
use vorder.Vbfs.Raw.{LogicFileIndex, add_file, set_file}
use vorder.Vbfs.Raw.Count.{count, count-le, count_cong, count_mono, add_file_lem, Maps}

pub Maps-cong :
    (f g : ℕ → PhyFileIndex) (n : ℕ) (files : ℕ → LogicFileIndex)
    → ((i : ℕ) → i < n → f i ≡ g i)
    → Maps f n files
    → Maps g n files
Maps-cong f g n files h m = record {
  cur_eq = λ t. m.cur_eq t ∙ count_cong t f g n h;
  phy_eq = λ i p.
      let below : (t : ℕ) → count t f i ≡ count t g i =
        λ t. count_cong t f g i (λ j q. h j (omega arith)) in
      let e = h i p in
      subst
        (λ (x : PhyFileIndex).
          (files x.logic_file_type).phy_file_idx (count x.logic_file_type g i) ≡ i)
        e
        (ap (files (f i).logic_file_type).phy_file_idx (sym (below (f i).logic_file_type))
          ∙ m.phy_eq i p);
  room = m.room;
}

pub Maps-add_file :
    (index : ℕ → PhyFileIndex) (n t : ℕ) (files : ℕ → LogicFileIndex)
    → Maps index n files
    → n + 1024 < 2 ^ 32
    → (index n).logic_file_type ≡ t
    → Maps index (suc n) (set_file t (add_file n (files t)) files)
unfolding count
Maps-add_file index n t files m small e =
    let bound : (files t).cur_num + 1024 < 2 ^ 32 = omega (arith, m.cur_eq t, count-le t index n) in
    let (cur, phy, room) = add_file_lem n (files t) (m.room t) bound in
    record {
      cur_eq = λ u. ground (arith, m.cur_eq u);
      phy_eq = λ i h.
          let u = (index i).logic_file_type in
          let k = count u index i in
          elim (Bool-cases (i == n)) [
            | inl here ↦
                let at : i ≡ n = (==_iff i n).0 here in
                let type : u ≡ t = ap (λ (j : ℕ). (index j).logic_file_type) at ∙ e in
                let last : k ≡ (files t).cur_num =
                  ap (λ (v : ℕ). count v index i) type ∙ ap (count t index) at ∙ sym (m.cur_eq t) in
                ground (arith, at, type, last, phy k)
            | inr old ↦
                let p : i < n = ground arith in
                let below : k < count u index n = count_mono u index i n refl p in
                ground (arith, below, m.phy_eq i p, m.cur_eq u, phy k)
          ];
      room =
          λ u. elim (Bool-cases (t == u)) [ inl hit ↦ rw hit room | inr miss ↦ rw miss (m.room u) ];
    }
