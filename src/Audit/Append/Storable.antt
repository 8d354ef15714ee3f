-- ===== src/Audit/Append/Storable.antt =====
-- About normalizeAuditInput of lib/audit/append.ts: the events that the table can store.
use captivo_access.Prelude.{
  Option-cases, ℕ, ◌≡◌, refl, true, false, List, [], ◌∷◌, Option, some, Text, arith, inl, inr, ◌≤◌,
  ◌⊎◌, none, All, leb,
}
use captivo_access.Prelude.Decimal.{Integer, pos}
use captivo_access.Json.{Num, nat, negsuc, fraction, infinite, nan}
use captivo_access.Audit.Append.{
  AuditInput, UserInfo, SiteInfo, NormalizedRow, normalize_audit_input, normalize_all,
  normalized_row, timestamp_of, status_of, bytes_of, stored_bytes, int4_max, int8_max,
}

-- What an event must be to be stored: its time can be read (an absent or empty one is now), and its
-- status and its bytes are numbers that their columns hold. Bytes below zero count as zero, and a
-- fraction of a byte is cut off.
abbrev pub HasTime : (Text → Option ℕ) → Option Text → Type 0
HasTime parse_date none = Unit
HasTime parse_date (some t) = (t ≡ []) ⊎ ((at : ℕ) × (parse_date t ≡ some at))

abbrev pub FitsStatus : Option Num → Type 0
FitsStatus none = Unit
FitsStatus (some (nat n)) = n ≤ int4_max
FitsStatus (some (negsuc n)) = n ≤ int4_max
FitsStatus (some _) = ⊥

abbrev pub FitsBytes : Option Num → Type 0
FitsBytes none = Unit
FitsBytes (some (nat n)) = n ≤ int8_max
FitsBytes (some (negsuc n)) = Unit
FitsBytes (some (fraction true n)) = Unit
FitsBytes (some (fraction false n)) = n ≤ int8_max
FitsBytes (some (infinite true)) = Unit
FitsBytes (some (infinite false)) = ⊥
FitsBytes (some nan) = ⊥

abbrev pub IsStorable : (Text → Option ℕ) → AuditInput → Type 0
IsStorable parse_date e =
    HasTime parse_date e.timestamp × FitsStatus e.status × FitsBytes e.bytes_out

time_read :
    (parse_date : Text → Option ℕ) (now : ℕ) (o : Option Text)
    → HasTime parse_date o
    → (at : ℕ) × (timestamp_of parse_date now o ≡ some at)
time_read parse_date now none h = (now, refl)
time_read parse_date now (some []) h = (now, refl)
time_read parse_date now (some (c ∷ t)) (inl e) = absurd cc
time_read parse_date now (some (c ∷ t)) (inr h) = h

status_held : (o : Option Num) → FitsStatus o → (n : Integer) × (status_of o ≡ some n)
unfolding status_of
status_held none h = (pos 0, refl)
status_held (some (nat n)) h =
    let small : leb n int4_max ≡ true = ground (arith, h) in (pos n, rw small refl)
status_held (some (negsuc n)) h =
    let small : leb n int4_max ≡ true = ground (arith, h) in (Integer.negsuc n, rw small refl)
status_held (some _) h = absurd h

bytes_held : (o : Option Num) → FitsBytes o → (n : ℕ) × (stored_bytes o ≡ some n)
unfolding stored_bytes bytes_of
bytes_held none h = (0, refl)
bytes_held (some (nat n)) h =
    let small : leb n int8_max ≡ true = ground (arith, h) in (n, rw small refl)
bytes_held (some (negsuc n)) h = (0, refl)
bytes_held (some (fraction true n)) h = (0, refl)
bytes_held (some (fraction false n)) h =
    let small : leb n int8_max ≡ true = ground (arith, h) in (n, rw small refl)
bytes_held (some (infinite true)) h = (0, refl)
bytes_held (some (infinite false)) h = absurd h
bytes_held (some nan) h = absurd h

-- And nothing else is stored.
time_storable :
    (parse_date : Text → Option ℕ) (now : ℕ) (o : Option Text) (at : ℕ)
    → timestamp_of parse_date now o ≡ some at
    → HasTime parse_date o
time_storable parse_date now none at e = tt
time_storable parse_date now (some []) at e = inl refl
time_storable parse_date now (some (c ∷ t)) at e = inr (at, e)

status_storable : (o : Option Num) (n : Integer) → status_of o ≡ some n → FitsStatus o
unfolding status_of
status_storable none n e = tt
status_storable (some (nat k)) n e = ground (arith, e)
status_storable (some (negsuc k)) n e = ground (arith, e)
status_storable (some _) n e = absurd cc

bytes_storable : (o : Option Num) (n : ℕ) → stored_bytes o ≡ some n → FitsBytes o
unfolding stored_bytes bytes_of
bytes_storable none n e = tt
bytes_storable (some (nat k)) n e = ground (arith, e)
bytes_storable (some (negsuc k)) n e = tt
bytes_storable (some (fraction true k)) n e = tt
bytes_storable (some (fraction false k)) n e = ground (arith, e)
bytes_storable (some (infinite true)) n e = tt
bytes_storable (some (infinite false)) n e = absurd cc
bytes_storable (some nan) n e = absurd cc

module _ (parse_date : Text → Option ℕ) (now : ℕ) (users : List UserInfo)
    (sites : List SiteInfo) where
  normalize_audit_input-some :
      (e : AuditInput)
      → IsStorable parse_date e
      → (n : NormalizedRow) × (normalize_audit_input parse_date now users sites e ≡ some n)
  unfolding normalize_audit_input
  normalize_audit_input-some e (timed, status, bytes) =
      let (at, read) = time_read parse_date now e.timestamp timed in
      let (code, held) = status_held e.status status in
      let (size, fits) = bytes_held e.bytes_out bytes in
      (normalized_row users sites e at code size, rw (read, fits, held, normalize_audit_input) refl)

  pub normalize_all-some :
      (es : List AuditInput)
      → All (IsStorable parse_date) es
      → (ns : List NormalizedRow) × (normalize_all parse_date now users sites es ≡ some ns)
  unfolding normalize_all
  normalize_all-some [] h = ([], refl)
  normalize_all-some (e ∷ es) (h, hs) =
      let (n, one) = normalize_audit_input-some e h in
      let (ns, rest) = normalize_all-some es hs in (n ∷ ns, rw (one, rest, normalize_all) refl)

  normalize_audit_input-IsStorable :
      (e : AuditInput) (n : NormalizedRow)
      → normalize_audit_input parse_date now users sites e ≡ some n
      → IsStorable parse_date e
  unfolding normalize_audit_input
  normalize_audit_input-IsStorable e n h =
      elim (Option-cases (timestamp_of parse_date now e.timestamp)) [
        | inl bad ↦ absurd (ground (arith, h, bad))
        | inr (at, read) ↦ elim (Option-cases (stored_bytes e.bytes_out)) [
          | inl bad ↦ absurd (ground (arith, h, read, bad))
          | inr (size, fits) ↦ elim (Option-cases (status_of e.status)) [
            | inl bad ↦ absurd (ground (arith, h, read, fits, bad))
            | inr (code, held) ↦ (
              time_storable parse_date now e.timestamp at read,
              status_storable e.status code held,
              bytes_storable e.bytes_out size fits,
            )
          ]
        ]
      ]

  pub normalize_all-IsStorable :
      (es : List AuditInput) (ns : List NormalizedRow)
      → normalize_all parse_date now users sites es ≡ some ns
      → All (IsStorable parse_date) es
  unfolding normalize_all
  normalize_all-IsStorable [] ns h = tt
  normalize_all-IsStorable (e ∷ es) ns h =
      elim (Option-cases (normalize_audit_input parse_date now users sites e)) [
        | inl bad ↦ absurd (ground (arith, h, bad))
        | inr (n, one) ↦ elim (Option-cases (normalize_all parse_date now users sites es)) [
          | inl bad ↦ absurd (ground (arith, h, one, bad))
          | inr (rest, more) ↦
              (normalize_audit_input-IsStorable e n one, normalize_all-IsStorable es rest more)
        ]
      ]
