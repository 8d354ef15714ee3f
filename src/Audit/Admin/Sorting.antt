-- ===== src/Audit/Admin/Sorting.antt =====
-- About the order of keys in stableStringify of lib/audit/admin-chain.ts.
use captivo_access.Prelude.{
  ◌≡◌, ◌≢◌, refl, ap, sym, inl, inr, true, false, List, [], ◌∷◌, Text, Bool-cases,
}
use captivo_access.Prelude.Order.{text_leb, text_leb_total, text_leb_antisymm, text_leb_trans}
use captivo_access.Audit.Admin.{insert_key}

-- Two insertions commute where the first key is the smaller one.
insert_below :
    (x y : Text × Text) (l : List (Text × Text))
    → text_leb x.0 y.0 ≡ true
    → text_leb y.0 x.0 ≡ false
    → insert_key x (insert_key y l) ≡ insert_key y (insert_key x l)
unfolding insert_key
insert_below x y [] below not_above = rw (below, not_above) refl
insert_below x y (z ∷ zs) below not_above = elim (Bool-cases (text_leb y.0 z.0)) [
  | inl yz ↦ let xz = text_leb_trans x.0 y.0 z.0 below yz in rw (yz, xz, below, not_above, yz) refl
  | inr zy ↦ elim (Bool-cases (text_leb x.0 z.0)) [
    | inl xz ↦ rw (zy, xz, not_above, zy) refl
    | inr zx ↦ rw (zy, zx, zy) (ap (◌∷◌ z) (insert_below x y zs below not_above))
  ]
]

pub insert_key_comm :
    (x y : Text × Text) (l : List (Text × Text))
    → x.0 ≢ y.0
    → insert_key x (insert_key y l) ≡ insert_key y (insert_key x l)
insert_key_comm x y l differ = elim (Bool-cases (text_leb x.0 y.0)) [
  | inl xy ↦ elim (Bool-cases (text_leb y.0 x.0)) [
    | inl yx ↦ absurd (differ (text_leb_antisymm x.0 y.0 xy yx))
    | inr yx ↦ insert_below x y l xy yx
  ]
  | inr xy ↦ sym (insert_below y x l (text_leb_total x.0 y.0 xy) xy)
]
