-- ===== src/Vbfs/Volumes/Opening.antt =====
-- Open of CVbfs: the devices that it leaves open.
use mathlib.Core.List.{append_assoc, append-nil}
use vorder.Base.{
  ◌≡◌, refl, sym, ap, ◌∙◌, ◌⊎◌, inl, inr, true, false, Option, none, some, List, [], ◌∷◌, ◌++◌, map,
  arith, Bool-cases, Option-cases,
}
use vorder.Vbfs.Volumes.{VbfsImpl, has_free, open_devices, last_device, open_volumes}

module _ (impl : VbfsImpl) where
  unfoldable pub AreFull : List impl.State → Type 0
  AreFull [] = Unit {0}
  AreFull (d ∷ ds) = (has_free impl d ≡ false) × AreFull ds

  -- What the loop puts behind the devices `acc`: full ones, and at most one that is not.
  record Opens (os : List (Option impl.State)) (acc ds : List impl.State) : Type 0 where
    full : List impl.State
    last : List impl.State
    behind : List (Option impl.State)
    opened : ds ≡ acc ++ (full ++ last)
    are_full : AreFull full
    prefix : os ≡ map some (full ++ last) ++ behind
    ends : (last ≡ []) ⊎ ((d : impl.State) × (last ≡ d ∷ []) × (has_free impl d ≡ true))

  open_devices-Opens :
      (os : List (Option impl.State)) (acc ds : List impl.State)
      → open_devices impl os acc ≡ some ds
      → Opens os acc ds
  unfolding open_devices AreFull
  open_devices-Opens [] acc ds e = record {
    full = [];
    last = [];
    behind = [];
    opened = ground (arith, append-nil acc);
    are_full = tt;
    prefix = refl;
    ends = inl refl;
  }
  open_devices-Opens (none ∷ os) acc ds e = absurd (cc)
  open_devices-Opens (some d ∷ os) acc ds e = elim (Bool-cases (has_free impl d)) [
    | inl free ↦ record {
      full = [];
      last = d ∷ [];
      behind = os;
      opened = ground (arith, free);
      are_full = tt;
      prefix = refl;
      ends = inr (d, refl, free);
    }
    | inr full ↦
        let o = open_devices-Opens os (acc ++ d ∷ []) ds (ground (arith, full)) in
        record {
          full = d ∷ o.full;
          last = o.last;
          behind = o.behind;
          opened = o.opened ∙ append_assoc acc (d ∷ []) (o.full ++ o.last);
          are_full = (full, o.are_full);
          prefix = ap (◌∷◌ (some d)) o.prefix;
          ends = o.ends;
        }
  ]

  last_device-full :
      (ds : List impl.State) (d : impl.State)
      → AreFull ds
      → last_device impl ds ≡ some d
      → has_free impl d ≡ false
  unfolding last_device AreFull
  last_device-full [] d f e = absurd (cc)
  last_device-full (c ∷ []) d f e = ground (arith, f.0)
  last_device-full (c ∷ b ∷ ds) d f e = last_device-full (b ∷ ds) d f.1 e

  -- Open of CVbfs that succeeds: it leaves open the first devices that the database names, up to the
  -- first one that is not full, which is the last.
  pub open_volumes-opens :
      (os : List (Option impl.State)) (ds : List impl.State)
      → open_volumes impl os ≡ some (some ds)
      → (full : List impl.State) × (d : impl.State) × (behind : List (Option impl.State)) × (ds
          ≡ full ++ d ∷ [])
        × AreFull full
        × (has_free impl d ≡ true)
        × (os ≡ map some ds ++ behind)
  unfolding open_volumes
  open_volumes-opens os ds e = elim (Option-cases (open_devices impl os [])) [
    | inl failed ↦ absurd (ground (arith, failed))
    | inr (es, f) ↦
        let o = open_devices-Opens os [] es f in
        elim (Option-cases (last_device impl es)) [
          | inl nothing ↦ absurd (ground (arith, f, nothing))
          | inr (d, l) ↦
              let free : has_free impl d ≡ true = ground (arith, f, l) in
              let same : es ≡ ds = ground (arith, f, l, free) in
              elim o.ends [
                | inl all ↦
                    let whole = o.opened ∙ ap (◌++◌ o.full) all ∙ append-nil o.full in
                    let d_full = last_device-full es d (rw whole o.are_full) l in
                    absurd (ground (arith, d_full, free))
                | inr (x, at, has) ↦ (
                  o.full,
                  x,
                  o.behind,
                  sym same ∙ o.opened ∙ ap (◌++◌ o.full) at,
                  o.are_full,
                  has,
                  o.prefix
                      ∙ ap (λ (xs : List impl.State). map some xs ++ o.behind)
                          (sym o.opened ∙ same),
                )
              ]
        ]
  ]
