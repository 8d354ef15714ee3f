-- ===== src/Directory/Reconcile/Rank.antt =====
-- About computeReconcile of lib/directory/reconcile.ts: the role and the sites.
use captivo_access.Prelude.{
  ◌≤◌, ◌≡◌, ◌⊎◌, inl, inr, refl, Bool, true, false, List, [], ◌∷◌, some, Text, Any, All, ltb, arith,
  Bool-cases, select, subst, sym, ap, ◌∙◌, contains, any, ◌&&◌, text_eq,
}
use captivo_access.Directory.Reconcile.Plan.{contains-distinct}
use captivo_access.Directory.Reconcile.{
  ConsoleRole, Target, role_target, site_target, Mapping, role_rank, to_role, highest, role_targets,
  site_targets, role_of_targets, decide_matched, matches, compute_reconcile,
}

-- A role is the first one or a member of the list, and no member has a higher rank.
abbrev IsTop : ConsoleRole → List ConsoleRole → ConsoleRole → Type 0
IsTop best rs top =
    ((top ≡ best) ⊎ Any (λ r. top ≡ r) rs)
    × ((role_rank best ≤ role_rank top) × All (λ r. role_rank r ≤ role_rank top) rs)

highest-IsTop : (best : ConsoleRole) (rs : List ConsoleRole) → IsTop best rs (highest best rs)
highest-IsTop best [] = (inl refl, (omega arith, tt))
highest-IsTop best (r ∷ rs) = elim (Bool-cases (ltb (role_rank best) (role_rank r))) [
  | inl e ↦
      let (found, (own, rest)) = highest-IsTop r rs in
      let same : highest r rs ≡ highest best (r ∷ rs) = rw e refl in
      subst (IsTop best (r ∷ rs)) same (inr found, (ground (arith, own), (own, rest)))
  | inr e ↦
      let (found, (own, rest)) = highest-IsTop best rs in
      let same : highest best rs ≡ highest best (r ∷ rs) = rw e refl in
      subst (IsTop best (r ∷ rs)) same
        (elim found [ inl f ↦ inl f | inr f ↦ inr (inr f) ], (own, (ground (arith, own), rest)))
]

Target-cases :
    (t : Target) → ((q : ConsoleRole) × (t ≡ role_target q)) ⊎ ((id : Text) × (t ≡ site_target id))
Target-cases (role_target q) = inl (q, refl)
Target-cases (site_target id) = inr (id, refl)

later_target :
    (x : Mapping) (ms : List Mapping) (r : ConsoleRole)
    → Any (λ q. q ≡ r) (role_targets ms)
    → Any (λ q. q ≡ r) (role_targets (x ∷ ms))
later_target x ms r rest = elim (Target-cases x.target) [
  | inl (q, e) ↦ rw e (inr rest)
  | inr (id, e) ↦ rw e rest
]

-- A matching mapping's role is among the roles that are compared, and each of these is the role of
-- a matching mapping.
role_targets_hold :
    (p : Mapping → Bool) (ms : List Mapping) (m : Mapping) (r : ConsoleRole)
    → Any (λ x. x ≡ m) ms
    → p m ≡ true
    → m.target ≡ role_target r
    → Any (λ q. q ≡ r) (role_targets (select p ms))
role_targets_hold p [] m r h pm target = elim h [ ]
role_targets_hold p (x ∷ ms) m r (inl same) pm target =
    let px = subst (λ y. p y ≡ true) (sym same) pm in
    let target_x : x.target ≡ role_target r = ap (λ y. y.target) same ∙ target in
    rw (px, target_x) (inl refl)
role_targets_hold p (x ∷ ms) m r (inr later) pm target =
    let rest = role_targets_hold p ms m r later pm target in
    elim (Bool-cases (p x)) [
      | inl px ↦ rw px (later_target x (select p ms) r rest)
      | inr px ↦ rw px rest
    ]

targets_of_matching :
    (p : Mapping → Bool) (ms : List Mapping) (r : ConsoleRole)
    → Any (λ q. r ≡ q) (role_targets (select p ms))
    → Any (λ x. (p x ≡ true) × (x.target ≡ role_target r)) ms
targets_of_matching p [] r h = elim h [ ]
targets_of_matching p (x ∷ ms) r h = elim (Bool-cases (p x)) [
  | inr px ↦ inr (targets_of_matching p ms r (rw px at h))
  | inl px ↦
      let h' = rw px at h in
      elim (Target-cases x.target) [
        | inr (id, e) ↦ inr (targets_of_matching p ms r (rw e at h'))
        | inl (q, e) ↦
            let h'' : (r ≡ q) ⊎ Any (λ k. r ≡ k) (role_targets (select p ms)) = rw e at h' in
            elim h'' [
              | inl same ↦ inl (px, e ∙ ap role_target (sym same))
              | inr rest ↦ inr (targets_of_matching p ms r rest)
            ]
      ]
]

no_less :
    (r top : ConsoleRole) (rs : List ConsoleRole)
    → Any (λ q. q ≡ r) rs
    → All (λ q. role_rank q ≤ role_rank top) rs
    → role_rank r ≤ role_rank top
no_less r top [] h below = elim h [ ]
no_less r top (q ∷ rs) (inl same) (h, rest) = subst (λ k. role_rank k ≤ role_rank top) same h
no_less r top (q ∷ rs) (inr later) (h, rest) = no_less r top rs later rest

-- The role that a list of compared roles gives, where it has a member.
highest_role :
    (roles : List ConsoleRole) (sites : List Text) (r : ConsoleRole)
    → Any (λ q. q ≡ r) roles
    → (top : ConsoleRole) × (role_of_targets roles sites ≡ some (to_role top))
      × (role_rank r ≤ role_rank top)
      × Any (λ q. top ≡ q) roles
highest_role [] sites r h = elim h [ ]
highest_role (q ∷ rs) sites r h =
    let (found, (own, below)) = highest-IsTop q (q ∷ rs) in
    (
      highest q (q ∷ rs),
      refl,
      no_less r (highest q (q ∷ rs)) (q ∷ rs) h below,
      elim found [ inl f ↦ inl f | inr f ↦ f ],
    )

role_of_decision :
    (managed : Bool) (ms : List Mapping) (r : ConsoleRole)
    → Any (λ q. q ≡ r) (role_targets ms)
    → (decide_matched managed ms).role ≡ role_of_targets (role_targets ms) (site_targets ms)
role_of_decision managed [] r h = elim h [ ]
role_of_decision managed (m ∷ ms) r h = refl

kept_user :
    (managed : Bool) (ms : List Mapping) (r : ConsoleRole)
    → Any (λ q. q ≡ r) (role_targets ms)
    → (decide_matched managed ms).deprovision ≡ false
kept_user managed [] r h = elim h [ ]
kept_user managed (m ∷ ms) r h = refl

-- Where an enabled mapping of a group of the user gives a console role, the user is not
-- deprovisioned and gets a console role of a rank at least as high, and that role is the one of an
-- enabled mapping of a group of the user: the highest of those roles, no other.
pub compute_reconcile-highest :
    (to_lower : Text → Text) (groups : List Text) (ms : List Mapping) (managed : Bool) (m : Mapping)
    (r : ConsoleRole)
    → Any (λ x. x ≡ m) ms
    → matches to_lower groups m ≡ true
    → m.target ≡ role_target r
    → let decision = compute_reconcile to_lower groups ms managed in
      (decision.deprovision ≡ false)
      × ((top : ConsoleRole) × (decision.role ≡ some (to_role top))
          × (role_rank r ≤ role_rank top)
          × Any (λ x. (matches to_lower groups x ≡ true) × (x.target ≡ role_target top)) ms)
unfolding compute_reconcile
compute_reconcile-highest to_lower groups ms managed m r mem match target =
    let p = matches to_lower groups in
    let held = role_targets_hold p ms m r mem match target in
    let (top, is_top, above, found) =
      highest_role (role_targets (select p ms)) (site_targets (select p ms)) r held in
    (
      kept_user managed (select p ms) r held,
      (
        top,
        role_of_decision managed (select p ms) r held ∙ is_top,
        above,
        targets_of_matching p ms top found,
      ),
    )

abbrev pub gives_site : Text → Target → Bool
gives_site x (role_target r) = false
gives_site x (site_target id) = text_eq x id

contains-site_targets :
    (p : Mapping → Bool) (ms : List Mapping) (x : Text)
    → contains (site_targets (select p ms)) x ≡ any (λ m. p m && gives_site x m.target) ms
contains-site_targets p [] x = refl
contains-site_targets p (m ∷ ms) x = elim (Bool-cases (p m)) [
  | inr pm ↦ rw pm (contains-site_targets p ms x)
  | inl pm ↦ elim (Target-cases m.target) [
    | inl (q, e) ↦ rw (pm, e) (contains-site_targets p ms x)
    | inr (id, e) ↦ rw (pm, e, contains-site_targets p ms x) refl
  ]
]

sites_of_decision :
    (managed : Bool) (ms : List Mapping) (x : Text)
    → contains (decide_matched managed ms).grant_site_ids x ≡ contains (site_targets ms) x
sites_of_decision managed [] x = refl
sites_of_decision managed (m ∷ ms) x = contains-distinct (site_targets (m ∷ ms)) x

-- A decision grants a site exactly where an enabled mapping of a group of the user gives it.
pub compute_reconcile-sites :
    (to_lower : Text → Text) (groups : List Text) (ms : List Mapping) (managed : Bool) (x : Text)
    → contains (compute_reconcile to_lower groups ms managed).grant_site_ids x
      ≡ any (λ m. matches to_lower groups m && gives_site x m.target) ms
unfolding compute_reconcile
compute_reconcile-sites to_lower groups ms managed x =
    sites_of_decision managed (select (matches to_lower groups) ms) x
    ∙ contains-site_targets (matches to_lower groups) ms x
