-- ===== src/Directory/Reconcile/Plan.antt =====
-- About planGrantChanges of lib/directory/reconcile.ts.
use captivo_access.Prelude.{
  ◌≡◌, refl, Bool, true, false, not, ◌&&◌, List, [], ◌∷◌, Text, text_eq, text_eq_iff, select,
  contains, arith, Bool-cases, inl, inr, subst, sym,
}
use captivo_access.Directory.Reconcile.{distinct, plan_grant_changes}

-- A condition that equal strings share passes through a selection.
pub contains-select :
    (p : Text → Bool) (xs : List Text) (x : Text)
    → contains (select p xs) x ≡ (contains xs x && p x)
contains-select p [] x = refl
contains-select p (y ∷ ys) x = elim (Bool-cases (text_eq x y)) [
  | inl e ↦
      let same = (text_eq_iff x y).0 e in
      elim (Bool-cases (p y)) [
        | inl py ↦ rw (py, e, subst (λ z. p z ≡ true) (sym same) py) refl
        | inr py ↦
            let px = subst (λ z. p z ≡ false) (sym same) py in
            rw (py, e) (ground (arith, contains-select p ys x))
      ]
  | inr e ↦ elim (Bool-cases (p y)) [
    | inl py ↦ rw (py, e) (contains-select p ys x)
    | inr py ↦ rw (py, e) (contains-select p ys x)
  ]
]

pub contains-distinct : (xs : List Text) (x : Text) → contains (distinct xs) x ≡ contains xs x
contains-distinct [] x = refl
contains-distinct (y ∷ ys) x = elim (Bool-cases (text_eq x y)) [
  | inl e ↦ rw e refl
  | inr e ↦
      let apart : text_eq y x ≡ false = elim (Bool-cases (text_eq y x)) [
        | inl e' ↦
            let t = (text_eq_iff x y).1 (sym ((text_eq_iff y x).0 e')) in absurd (ground arith)
        | inr e' ↦ e'
      ] in
      rw e (
        rw (contains-select (λ z. not (text_eq y z)) (distinct ys) x, contains-distinct ys x, apart)
          (ground arith))
]

-- A plan creates exactly the desired sites that are not held, and revokes exactly the held sites
-- that are not desired.
pub plan_grant_changes_lem :
    (current desired : List Text) (x : Text)
    → let plan = plan_grant_changes current desired in
      (contains plan.to_create_site_ids x ≡ (contains desired x && not (contains current x)))
      × (contains plan.to_revoke_site_ids x ≡ (contains current x && not (contains desired x)))
unfolding plan_grant_changes
plan_grant_changes_lem current desired x = (
  rw
      (
        contains-select (λ y. not (contains current y)) (distinct desired) x,
        contains-distinct desired x,
      )
      refl,
  rw
      (
        contains-select (λ y. not (contains desired y)) (distinct current) x,
        contains-distinct current x,
      )
      refl,
)
