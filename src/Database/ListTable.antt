-- ===== src/Database/ListTable.antt =====
-- A table that meets the laws: the list of its rows, the newest last.
use captivo_access.Prelude.{
  ◌+◌, ◌≡◌, refl, Bool, not, ◌&&◌, List, [], ◌∷◌, ◌++◌, map, arith, if◌then◌else◌, count, select,
}
use captivo_access.Database.{Table, every, updated}

module _ {A : Type 0} where
  pub select-every : (xs : List A) → select every xs ≡ xs
  select-every [] = refl
  select-every (x ∷ xs) = rw (select-every xs)

  pub count-select :
      (p q : A → Bool) (xs : List A) → count q (select p xs) ≡ count (λ r. p r && q r) xs
  count-select p q [] = refl
  count-select p q (x ∷ xs) = ground (arith, count-select p q xs)

  pub count-append_one :
      (q : A → Bool) (xs : List A) (r : A)
      → count q (xs ++ r ∷ []) ≡ (if q r then 1 else 0) + count q xs
  count-append_one q [] r = refl
  count-append_one q (x ∷ xs) r = omega (arith, count-append_one q xs r)

  pub count-map :
      (f : A → A) (q : A → Bool) (xs : List A) → count q (map f xs) ≡ count (λ r. q (f r)) xs
  count-map f q [] = refl
  count-map f q (x ∷ xs) = rw (count-map f q xs)

abbrev pub list_table : (Row : Type 0) → Table Row
list_table Row = record {
  Store = List Row;
  find_many = select;
  create = λ r s. s ++ r ∷ [];
  update_many = λ p f s. (map (updated p f) s, count p s);
  delete_many = λ p s. (select (λ r. not (p r)) s, count p s);
  count-find_many = λ p q s. rw select-every (count-select p q s);
  count-create = λ r q s. rw (select-every, select-every) (count-append_one q s r);
  count-update = λ p f q s. rw (select-every, select-every) (count-map (updated p f) q s);
  number_updated = λ p f s. rw select-every;
  count-delete = λ p q s. rw (select-every, select-every) (count-select (λ r. not (p r)) q s);
  number_deleted = λ p s. rw select-every;
}
