-- ===== src/Database.antt =====
-- What the program takes from its database client: tables of rows that are found, created, updated
-- and deleted by a condition. The client and the server are not part of the repository, so a
-- table is a parameter. Its laws are the documented behaviour, stated on how many rows meet a
-- condition: nothing is assumed of the order in which rows come back.
pub mod ListTable
pub mod Queries
use captivo_access.Prelude.{
  ℕ, ◌+◌, ◌≡◌, Bool, true, not, ◌&&◌, List, Option, none, some, [], ◌∷◌, if◌then◌else◌, count,
}

-- No condition.
abbrev pub every {ℓ} : {A : Type ℓ} → A → Bool
every r = true

-- A row as an `updateMany` with this condition and data leaves it.
abbrev pub updated {ℓ} : {A : Type ℓ} → (A → Bool) → (A → A) → A → A
updated p f r = if p r then f r else r

abbrev pub first {ℓ} : {A : Type ℓ} → List A → Option A
first [] = none
first (x ∷ xs) = some x

pub record Table (Row : Type 0) : Type 1 where
  pub Store : Type 0
  pub find_many : (Row → Bool) → Store → List Row
  pub create : Row → Store → Store
  -- The number beside the new table is the count of rows that matched.
  pub update_many : (Row → Bool) → (Row → Row) → Store → Store × ℕ
  pub delete_many : (Row → Bool) → Store → Store × ℕ
  pub count-find_many :
      (p q : Row → Bool) (s : Store)
      → count q (find_many p s) ≡ count (λ r. p r && q r) (find_many every s)
  pub count-create :
      (r : Row) (q : Row → Bool) (s : Store)
      → count q (find_many every (create r s))
        ≡ (if q r then 1 else 0) + count q (find_many every s)
  pub count-update :
      (p : Row → Bool) (f : Row → Row) (q : Row → Bool) (s : Store)
      → count q (find_many every (update_many p f s).0)
        ≡ count (λ r. q (updated p f r)) (find_many every s)
  pub number_updated :
      (p : Row → Bool) (f : Row → Row) (s : Store)
      → (update_many p f s).1 ≡ count p (find_many every s)
  pub count-delete :
      (p q : Row → Bool) (s : Store)
      → count q (find_many every (delete_many p s).0)
        ≡ count (λ r. not (p r) && q r) (find_many every s)
  pub number_deleted :
      (p : Row → Bool) (s : Store) → (delete_many p s).1 ≡ count p (find_many every s)

module _ {Row : Type 0} (t : Table Row) where
  -- How many rows of the table meet a condition (also `count({ where })`).
  abbrev pub tally : (Row → Bool) → t.Store → ℕ
  tally q s = count q (t.find_many every s)

  -- `findFirst({ where })`, and `findUnique` at a unique key.
  abbrev pub find_first : (Row → Bool) → t.Store → Option Row
  find_first p s = first (t.find_many p s)
