-- ===== src/Access/Evaluate/Classify.antt =====
-- About classifyGrant of lib/access/evaluate.ts: one grant.
use captivo_access.Prelude.{
  ℕ, ◌≤◌, ◌≡◌, ◌↔◌, ◌⊎◌, inl, inr, refl, true, false, Option, none, some, arith, is_some,
}
use captivo_access.Json.{Json, is_nullish}
use captivo_access.Access.Schedule.{Schedule, Intl, parse_schedule, is_within_schedule}
use captivo_access.Access.Evaluate.{
  GrantStatus, active, revoked, denied, Grant, allow, before_start, after_end, on_schedule,
  classify_active, classify_by_status, classify_grant,
}

-- The instant lies in the window of the grant, whose ends are included and may be open.
abbrev pub NotBefore : Option ℕ → ℕ → Type 0
NotBefore none now = Unit
NotBefore (some d) now = d ≤ now

abbrev pub NotAfter : Option ℕ → ℕ → Type 0
NotAfter none now = Unit
NotAfter (some d) now = now ≤ d

module _ (intl : Intl) where
  -- What a grant must satisfy to let its user in at an instant.
  pub record Allows (g : Grant) (now : ℕ) : Type 0 where
    pub is_active : g.status ≡ active
    pub started : NotBefore g.starts_at now
    pub not_ended : NotAfter g.ends_at now
    pub approved : (g.requires_approval ≡ false) ⊎ (is_some g.approved_at ≡ true)
    pub on_time :
        (is_nullish g.schedule ≡ true)
        ⊎ ((s : Schedule) × (parse_schedule intl g.schedule ≡ some s)
            × (is_within_schedule intl s now ≡ true))

  before_start_sound : (d : Option ℕ) (now : ℕ) → before_start d now ≡ false → NotBefore d now
  before_start_sound none now h = tt
  before_start_sound (some d) now h = ground arith

  after_end_sound : (d : Option ℕ) (now : ℕ) → after_end d now ≡ false → NotAfter d now
  after_end_sound none now h = tt
  after_end_sound (some d) now h = ground arith

  before_start_complete : (d : Option ℕ) (now : ℕ) → NotBefore d now → before_start d now ≡ false
  before_start_complete none now h = refl
  before_start_complete (some d) now h = ground arith

  after_end_complete : (d : Option ℕ) (now : ℕ) → NotAfter d now → after_end d now ≡ false
  after_end_complete none now h = refl
  after_end_complete (some d) now h = ground arith

  on_schedule_sound :
      (v : Json) (now : ℕ)
      → on_schedule intl v now ≡ true
      → (s : Schedule) × (parse_schedule intl v ≡ some s) × (is_within_schedule intl s now ≡ true)
  unfolding on_schedule
  on_schedule_sound v now h = ground arith

  classify_active_sound :
      (g : Grant) (now : ℕ)
      → classify_active intl g now ≡ allow
      → (before_start g.starts_at now ≡ false)
        × (after_end g.ends_at now ≡ false)
        × ((g.requires_approval ≡ false) ⊎ (is_some g.approved_at ≡ true))
        × ((is_nullish g.schedule ≡ true) ⊎ (on_schedule intl g.schedule now ≡ true))
  unfolding classify_active
  classify_active_sound g now h = ground arith

  classify_active_complete :
      (g : Grant) (now : ℕ) → Allows g now → classify_active intl g now ≡ allow
  unfolding classify_active on_schedule
  classify_active_complete g now a =
      rw
        (
          before_start_complete g.starts_at now a.started,
          after_end_complete g.ends_at now a.not_ended,
        )
        (ground (arith, a.approved, a.on_time))

  by_status :
      (st : GrantStatus) (g : Grant) (now : ℕ)
      → classify_by_status intl st g now ≡ allow
      → (st ≡ active) × (classify_active intl g now ≡ allow)
  unfolding classify_by_status
  by_status active g now h = (refl, h)
  by_status revoked g now h = cc
  by_status denied g now h = cc

  of_status :
      (st : GrantStatus) (g : Grant) (now : ℕ)
      → st ≡ active
      → classify_active intl g now ≡ allow
      → classify_by_status intl st g now ≡ allow
  unfolding classify_by_status
  of_status active g now e h = h
  of_status revoked g now e h = cc
  of_status denied g now e h = cc

  on_time_of :
      (g : Grant) (now : ℕ)
      → (is_nullish g.schedule ≡ true) ⊎ (on_schedule intl g.schedule now ≡ true)
      → (is_nullish g.schedule ≡ true)
        ⊎ ((s : Schedule) × (parse_schedule intl g.schedule ≡ some s)
            × (is_within_schedule intl s now ≡ true))
  on_time_of g now (inl absent) = inl absent
  on_time_of g now (inr holds) = inr (on_schedule_sound g.schedule now holds)

  -- `classifyGrant` answers "allow" exactly for a grant that is ACTIVE, whose window holds the
  -- instant (both ends included, an absent end open), that needs no approval or has it, and whose
  -- schedule is absent or parses and admits the instant: a schedule that does not parse denies.
  pub classify_grant_iff :
      (g : Grant) (now : ℕ) → (classify_grant intl g now ≡ allow) ↔ Allows g now
  unfolding classify_grant
  classify_grant_iff g now = (
    (λ h.
        let (st, body) = by_status g.status g now h in
        let (start, finish, approval, time) = classify_active_sound g now body in
        record {
          is_active = st;
          started = before_start_sound g.starts_at now start;
          not_ended = after_end_sound g.ends_at now finish;
          approved = approval;
          on_time = on_time_of g now time;
        }),
    (λ a. of_status g.status g now a.is_active (classify_active_complete g now a)),
  )
