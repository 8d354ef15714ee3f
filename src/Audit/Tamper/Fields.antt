-- ===== src/Audit/Tamper/Fields.antt =====
-- About `canonicalize` of lib/audit/chain.ts: what the attested text of an event tells of its fields.
use mathlib.Core.Option.{some-injective}
use captivo_access.Prelude.Splits.{decimal-Without, digits_value-decimal}
use captivo_access.Prelude.Decimal.{
  Integer, pos, decimal, integer_text, digits_value, iso_date, iso_string,
}
use captivo_access.Prelude.{
  ℕ, zero, suc, ◌+◌, get_or, ◌≡◌, ◌≢◌, refl, List, [], ◌∷◌, Text, arith, sym, ap, subst, ◌∙◌, All,
}
use captivo_access.Audit.Chain.{ChainableEvent, canonicalize, canonical_fields}
use captivo_access.Audit.Tamper.{Lacks, join_unique}

digit_above : (n : ℕ) → 48 + n ≢ 0x1f
digit_above n e = absurd (omega (arith, e))

-- The units of a date: digits, and the marks between them.
iso_string-Lacks : (ms : ℕ) → Lacks 0x1f (iso_string ms)
unfolding iso_string iso_date
iso_string-Lacks ms = (
  digit_above _,
  (
    digit_above _,
    (
      digit_above _,
      (
        digit_above _,
        (
          (λ e. absurd (omega (arith, e))),
          (
            digit_above _,
            (
              digit_above _,
              (
                (λ e. absurd (omega (arith, e))),
                (
                  digit_above _,
                  (
                    digit_above _,
                    (
                      (λ e. absurd (omega (arith, e))),
                      (
                        digit_above _,
                        (
                          digit_above _,
                          (
                            (λ e. absurd (omega (arith, e))),
                            (
                              digit_above _,
                              (
                                digit_above _,
                                (
                                  (λ e. absurd (omega (arith, e))),
                                  (
                                    digit_above _,
                                    (
                                      digit_above _,
                                      (
                                        (λ e. absurd (omega (arith, e))),
                                        (
                                          digit_above _,
                                          (
                                            digit_above _,
                                            (digit_above _, ((λ e. absurd (omega (arith, e))), tt)),
                                          ),
                                        ),
                                      ),
                                    ),
                                  ),
                                ),
                              ),
                            ),
                          ),
                        ),
                      ),
                    ),
                  ),
                ),
              ),
            ),
          ),
        ),
      ),
    ),
  ),
)

integer_text-Lacks : (n : Integer) → Lacks 0x1f (integer_text n)
unfolding integer_text
integer_text-Lacks (pos n) = decimal-Without 0x1f n (omega arith)
integer_text-Lacks (Integer.negsuc n) =
    ((λ e. absurd (omega (arith, e))), decimal-Without 0x1f (suc n) (omega arith))

decimal-injective : (m n : ℕ) → decimal m ≡ decimal n → m ≡ n
decimal-injective m n e =
    some-injective m n
      (sym (digits_value-decimal m) ∙ ap (digits_value 0) e ∙ digits_value-decimal n)

-- No number is printed with a sign in front.
unsigned : (n : ℕ) (s : Text) → decimal n ≢ 45 ∷ s
unsigned n s e = let bare = subst (Lacks 45) e (decimal-Without 45 n (omega arith)) in bare.0 refl

integer_text-injective : (m n : Integer) → integer_text m ≡ integer_text n → m ≡ n
unfolding integer_text
integer_text-injective (pos m) (pos n) e = ap pos (decimal-injective m n e)
integer_text-injective (pos m) (Integer.negsuc n) e = absurd (unsigned m _ e)
integer_text-injective (Integer.negsuc m) (pos n) e = absurd (unsigned n _ (sym e))
integer_text-injective (Integer.negsuc m) (Integer.negsuc n) e =
    let same : suc m ≡ suc n = decimal-injective (suc m) (suc n) (ap behind e) in
    ap Integer.negsuc (omega (arith, same))
  where
    behind : Text → Text
    behind [] = []
    behind (c ∷ s) = s

-- No text of the event holds the separator.
pub record IsClean (e : ChainableEvent) : Type 0 where
  pub user_id : Lacks 0x1f (get_or e.user_id [])
  pub site_id : Lacks 0x1f (get_or e.site_id [])
  pub host : Lacks 0x1f e.host
  pub method : Lacks 0x1f e.method
  pub path : Lacks 0x1f e.path
  pub decision : Lacks 0x1f e.decision
  pub reason : Lacks 0x1f (get_or e.reason [])
  pub client_ip : Lacks 0x1f (get_or e.client_ip [])
  pub user_agent : Lacks 0x1f (get_or e.user_agent [])

canonical_fields-Lacks : (e : ChainableEvent) → IsClean e → All (Lacks 0x1f) (canonical_fields e)
unfolding canonical_fields
canonical_fields-Lacks e h = (
  decimal-Without 0x1f e.seq (omega arith),
  (
    iso_string-Lacks e.timestamp,
    (
      h.user_id,
      (
        h.site_id,
        (
          h.host,
          (
            h.method,
            (
              h.path,
              (
                integer_text-Lacks e.status,
                (
                  decimal-Without 0x1f e.bytes_out (omega arith),
                  (h.decision, (h.reason, (h.client_ip, (h.user_agent, tt)))),
                ),
              ),
            ),
          ),
        ),
      ),
    ),
  ),
)

-- The text at a position.
nth : ℕ → List Text → Text
nth k [] = []
nth zero (x ∷ xs) = x
nth (suc k) (x ∷ xs) = nth k xs

-- Two events whose texts are free of the separator and whose attested texts are the same agree in
-- every field that is attested: in their numbers, in their time as it is printed, and in their texts,
-- where an absent text is not told from an empty one.
pub canonicalize_fields :
    (x y : ChainableEvent)
    → IsClean x
    → IsClean y
    → canonicalize x ≡ canonicalize y
    → (x.seq ≡ y.seq)
      × (iso_string x.timestamp ≡ iso_string y.timestamp)
      × (get_or x.user_id [] ≡ get_or y.user_id [])
      × (get_or x.site_id [] ≡ get_or y.site_id [])
      × (x.host ≡ y.host)
      × (x.method ≡ y.method)
      × (x.path ≡ y.path)
      × (x.status ≡ y.status)
      × (x.bytes_out ≡ y.bytes_out)
      × (x.decision ≡ y.decision)
      × (get_or x.reason [] ≡ get_or y.reason [])
      × (get_or x.client_ip [] ≡ get_or y.client_ip [])
      × (get_or x.user_agent [] ≡ get_or y.user_agent [])
unfolding canonicalize canonical_fields nth
canonicalize_fields x y h k e =
    let fields =
      join_unique (canonical_fields x) (canonical_fields y) refl (canonical_fields-Lacks x h)
        (canonical_fields-Lacks y k) e in
    (
      decimal-injective x.seq y.seq (ap (nth 0) fields),
      ap (nth 1) fields,
      ap (nth 2) fields,
      ap (nth 3) fields,
      ap (nth 4) fields,
      ap (nth 5) fields,
      ap (nth 6) fields,
      integer_text-injective x.status y.status (ap (nth 7) fields),
      decimal-injective x.bytes_out y.bytes_out (ap (nth 8) fields),
      ap (nth 9) fields,
      ap (nth 10) fields,
      ap (nth 11) fields,
      ap (nth 12) fields,
    )
