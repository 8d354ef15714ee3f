-- ===== src/Audit/Anchor/Settles.antt =====
-- About runAnchorFor of lib/audit/anchor.ts, run again on the same head.
use captivo_access.Prelude.{
  ℕ, ◌<◌, ◌≡◌, ◌≢◌, ◌⊎◌, subst, ◌∙◌, refl, inl, inr, true, false, List, [], ◌∷◌, ◌++◌, some, Text,
  arith, text_eq_iff, ◌==◌, ltb, All, Bool-cases, Option-cases, lt→ltb,
}
use mathlib.Core.Option.{some_inj}
use captivo_access.Audit.Verify.{ChainHead}
use captivo_access.Audit.Anchor.{
  Anchor, should_anchor, TsaAnswer, http_error, stamped, throws, AnchorRunResult, skipped, failed,
  find_last_anchor, anchor_head, store_stamp, run_anchor_for, anchor_digest,
}

-- The anchor of a head that is beyond all others is the last one.
find_last_anchor-new :
    (anchors : List Anchor) (a : Anchor)
    → All (λ (b : Anchor). b.anchored_seq < a.anchored_seq) anchors
    → find_last_anchor (anchors ++ a ∷ []) ≡ some a
unfolding find_last_anchor
find_last_anchor-new [] a h = refl
find_last_anchor-new (b ∷ anchors) a (lt, h) =
    rw (find_last_anchor-new anchors a h, lt→ltb b.anchored_seq a.anchored_seq lt) refl

should_anchor-same :
    (a : Anchor) (head : ChainHead)
    → a.anchored_seq ≡ head.last_seq
    → a.anchored_hash ≡ head.last_hash
    → should_anchor head (some a) ≡ false
unfolding should_anchor
should_anchor-same a head e f =
    let same = (text_eq_iff _ _).1 f in
    elim (Bool-cases (head.last_seq == 0)) [
      | inl z ↦ rw z refl
      | inr p ↦ rw p (ground (arith, same))
    ]

last_of_all :
    (P : Anchor → Type 0) (anchors : List Anchor) (a : Anchor)
    → All P anchors
    → find_last_anchor anchors ≡ some a
    → P a
unfolding find_last_anchor
last_of_all P [] a h e = absurd cc
last_of_all P (b ∷ anchors) a (first, rest) e = elim (Option-cases (find_last_anchor anchors)) [
  | inl only ↦ let same : b ≡ a = some_inj.0 (rw only at e) in subst P same first
  | inr (c, more) ↦ elim (Bool-cases (ltb b.anchored_seq c.anchored_seq)) [
    | inl later ↦ last_of_all P anchors a rest (more ∙ rw (more, later) at e)
    | inr sooner ↦ let same : b ≡ a = some_inj.0 (rw (more, sooner) at e) in subst P same first
  ]
]

-- A head beyond all anchors is anchored.
should_anchor-newer :
    (head : ChainHead) (anchors : List Anchor)
    → 0 < head.last_seq
    → All (λ (b : Anchor). b.anchored_seq < head.last_seq) anchors
    → should_anchor head (find_last_anchor anchors) ≡ true
unfolding should_anchor
should_anchor-newer head anchors pos h = elim (Option-cases (find_last_anchor anchors)) [
  | inl no_anchor ↦ rw no_anchor (ground arith)
  | inr (a, found) ↦
      let lt = last_of_all (λ (b : Anchor). b.anchored_seq < head.last_seq) anchors a h found in
      rw found (ground (arith, lt))
]

-- The new anchor of a head.
abbrev pub anchor_of : Text → Text → ChainHead → Text → ℕ → Anchor
anchor_of id url head token gen_time = record {
  id = id;
  anchored_seq = head.last_seq;
  anchored_hash = head.last_hash;
  tsa_url = url;
  token = token;
  gen_time = gen_time;
}

module _ (sha : Text → Text) (tsa tsa' : Text → Text → TsaAnswer) (id id' url : Text)
    (head : ChainHead) (anchors : List Anchor) where
  -- A second run, after the head was anchored, stores nothing.
  second_run :
      (token : Text) (gen_time : ℕ)
      → All (λ (b : Anchor). b.anchored_seq < head.last_seq) anchors
      → let anchors' = anchors ++ anchor_of id url head token gen_time ∷ [] in
        anchor_head sha tsa' id' url (some head) anchors' ≡ (anchors', skipped)
  second_run token gen_time h =
      rw
        (
          find_last_anchor-new anchors (anchor_of id url head token gen_time) h,
          should_anchor-same (anchor_of id url head token gen_time) head refl refl,
        )
        refl

  abbrev pub Settles : List Anchor × AnchorRunResult → Type 0
  Settles (anchors', r) =
      ((token : Text) × (gen_time : ℕ) × (anchors'
          ≡ anchors ++ anchor_of id url head token gen_time ∷ [])
        × (anchor_head sha tsa' id' url (some head) anchors' ≡ (anchors', skipped)))
      ⊎ ((message : Text) × (r ≡ failed message) × (anchors' ≡ anchors))

  store_stamp-Settles :
      (answer : TsaAnswer)
      → All (λ (b : Anchor). b.anchored_seq < head.last_seq) anchors
      → Settles (store_stamp sha tsa id url head anchors answer)
  store_stamp-Settles (http_error status) h = inr (_, refl, refl)
  store_stamp-Settles (stamped token gen_time) h =
      inl (token, gen_time, refl, second_run token gen_time h)
  store_stamp-Settles (throws message) h = inr (_, refl, refl)

-- A run on a head that is beyond all anchors either stores one anchor of the head, after which a
-- second run on the same head, with any authority, skips it and stores nothing, or it fails and
-- stores nothing. Anchoring is enabled, with an address.
pub run_anchor_for_settles :
    (sha : Text → Text) (tsa tsa' : Text → Text → TsaAnswer) (id id' url : Text) (head : ChainHead)
    (anchors : List Anchor)
    → 0 < head.last_seq
    → url ≢ []
    → All (λ (b : Anchor). b.anchored_seq < head.last_seq) anchors
    → let (anchors', r) = run_anchor_for sha tsa id true url (some head) anchors in
      ((token : Text) × (gen_time : ℕ) × (anchors'
          ≡ anchors ++ anchor_of id url head token gen_time ∷ [])
        × (run_anchor_for sha tsa' id' true url (some head) anchors' ≡ (anchors', skipped)))
      ⊎ ((message : Text) × (r ≡ failed message) × (anchors' ≡ anchors))
unfolding run_anchor_for
run_anchor_for_settles sha tsa tsa' id id' [] head anchors pos set h = absurd (set refl)
run_anchor_for_settles sha tsa tsa' id id' (c ∷ url) head anchors pos set h =
    rw (should_anchor-newer head anchors pos h) (
      store_stamp-Settles sha tsa tsa' id id' (c ∷ url) head anchors
        (tsa (c ∷ url) (anchor_digest sha head.last_seq head.last_hash)) h)
