-- ===== src/Audit/Admin/Undefined.antt =====
-- About stableStringify of lib/audit/admin-chain.ts for a property whose value is `undefined`,
-- which a JSON column does not store.
use captivo_access.Prelude.{
  ℕ, suc, ◌+◌, ◌-◌, ◌<◌, ◌≡◌, ◌≢◌, refl, ap, inl, inr, false, List, [], ◌∷◌, ◌++◌, Text, lit, join,
  map, length, length-append, get_or, some, false, Option, arith, Bool-cases,
}
use captivo_access.Prelude.Order.{text_leb}
use captivo_access.Prelude.Decimal.{decimal, iso_string}
use captivo_access.Json.{Num, Json, undefined, obj, Fields, field}
use captivo_access.Audit.Chain.{unit_separator, chain_hash}
use captivo_access.Audit.Admin.{
  insert_key, sort_keys, stable_stringify, field_texts, AdminChainable, canonicalize_admin,
  compute_admin_hash, AdminAction, AdminLog, admin_head, admin_seq, record_admin_action,
  admin_event, verify_admin_chain, kept, reread,
}
use captivo_access.Audit.Admin.Records.{writer}
use captivo_access.Audit.Verify.{ChainHead}
use captivo_access.Audit.Verify.Reread.{verify_chain-broken}

module _ (g : Text × Text → Text) where
  -- What the printed properties take, with a comma after each.
  room : List (Text × Text) → ℕ
  room [] = 0
  room (x ∷ xs) = length (g x) + 1 + room xs

  room-insert_key :
      (x : Text × Text) (l : List (Text × Text))
      → room (insert_key x l) ≡ room l + (length (g x) + 1)
  unfolding room insert_key
  room-insert_key x [] = omega arith
  room-insert_key x (y ∷ ys) = elim (Bool-cases (text_leb x.0 y.0)) [
    | inl e ↦ rw e (omega arith)
    | inr e ↦ rw e (omega (arith, room-insert_key x ys))
  ]

  length-join-room : (l : List (Text × Text)) → length (join (lit ",") (map g l)) ≡ room l - 1
  unfolding join room
  length-join-room [] = refl
  length-join-room (x ∷ []) = omega arith
  length-join-room (x ∷ y ∷ ys) =
      rw (length-append (g x) _) (omega (arith, length-join-room (y ∷ ys)))

module _ (quote : Text → Text) (number_text : Num → Text) where
  abbrev shown : Text × Text → Text
  shown e = quote e.0 ++ lit ":" ++ e.1

  length-stable_stringify :
      (fs : Fields)
      → length (stable_stringify quote number_text (obj fs))
        ≡ 2 + (room shown (sort_keys (field_texts quote number_text fs)) - 1)
  unfolding stable_stringify
  length-stable_stringify fs =
      rw
        (
          length-append (join (lit ",") (map shown (sort_keys (field_texts quote number_text fs))))
              _,
          length-join-room shown (sort_keys (field_texts quote number_text fs)),
        )
        (omega arith)

  length-shown : (e : Text × Text) → length (shown e) ≡ length (quote e.0) + suc (length e.1)
  length-shown e =
      omega (arith, length-append (quote e.0 ++ lit ":") e.1, length-append (quote e.0) (lit ":"))

  room-undefined :
      (k : Text) (fs : Fields)
      → room shown (sort_keys (field_texts quote number_text (field k undefined fs)))
        ≡ room shown (sort_keys (field_texts quote number_text fs)) + (length (quote k) + 6)
  unfolding sort_keys field_texts stable_stringify
  room-undefined k fs =
      let rest = sort_keys (field_texts quote number_text fs) in
      rw (room-insert_key shown (k, lit "null") rest, length-shown (k, lit "null")) (omega arith)

  -- A property whose value is `undefined` lengthens the canonical text of its object.
  stable_stringify-undefined :
      (k : Text) (fs : Fields)
      → length (stable_stringify quote number_text (obj fs))
        < length (stable_stringify quote number_text (obj (field k undefined fs)))
  stable_stringify-undefined k fs = omega (
    arith,
    length-stable_stringify fs,
    length-stable_stringify (field k undefined fs),
    room-undefined k fs,
  )

  length-join_mono :
      (sep : Text) (before after : List Text) (a b : Text)
      → length a < length b
      → length (join sep (before ++ a ∷ after)) < length (join sep (before ++ b ∷ after))
  unfolding join
  length-join_mono sep [] [] a b h = h
  length-join_mono sep [] (y ∷ ys) a b h = omega (
    arith,
    length-append a (sep ++ join sep (y ∷ ys)),
    length-append b (sep ++ join sep (y ∷ ys)),
  )
  length-join_mono sep (x ∷ []) after a b h = omega (
    arith,
    length-join_mono sep [] after a b h,
    length-append x (sep ++ join sep (a ∷ after)),
    length-append x (sep ++ join sep (b ∷ after)),
    length-append sep (join sep (a ∷ after)),
    length-append sep (join sep (b ∷ after)),
  )
  length-join_mono sep (x ∷ y ∷ ys) after a b h = omega (
    arith,
    length-join_mono sep (y ∷ ys) after a b h,
    length-append x (sep ++ join sep (y ∷ ys ++ a ∷ after)),
    length-append x (sep ++ join sep (y ∷ ys ++ b ∷ after)),
    length-append sep (join sep (y ∷ ys ++ a ∷ after)),
    length-append sep (join sep (y ∷ ys ++ b ∷ after)),
  )

  -- The same event with the metadata `v`.
  abbrev with_metadata : AdminChainable → Json → AdminChainable
  with_metadata e v = record e { metadata = v }

  canonicalize_admin-undefined :
      (e : AdminChainable) (k : Text) (fs : Fields)
      → length (canonicalize_admin quote number_text (with_metadata e (obj fs)))
        < length
            (canonicalize_admin quote number_text (with_metadata e (obj (field k undefined fs))))
  unfolding canonicalize_admin
  canonicalize_admin-undefined e k fs =
      length-join_mono unit_separator
        (decimal e.seq
          ∷ iso_string e.timestamp
          ∷ get_or e.actor_id []
          ∷ get_or e.actor_email []
          ∷ e.action
          ∷ get_or e.target_type []
          ∷ get_or e.target_id []
          ∷ e.summary
          ∷ [])
        (get_or e.client_ip [] ∷ []) _ _ (stable_stringify-undefined k fs)

  compute_admin_hash-undefined :
      (sha : Text → Text) (p : Text) (e : AdminChainable) (k : Text) (fs : Fields)
      → ((a b : Text) → sha a ≡ sha b → a ≡ b)
      → compute_admin_hash quote number_text sha p (with_metadata e (obj fs))
        ≢ compute_admin_hash quote number_text sha p (with_metadata e (obj (field k undefined fs)))
  unfolding compute_admin_hash chain_hash
  compute_admin_hash-undefined sha p e k fs collision_free same =
      let texts = collision_free _ _ same in
      let longer = canonicalize_admin-undefined e k fs in
      absurd (omega (arith, ap length texts, length-append p _, longer))

  admin_event-undefined :
      (sha : Text → Text) (column : Json → Json) (p : Text) (seq now : ℕ) (input : AdminAction)
      (k : Text) (fs : Fields)
      → ((a b : Text) → sha a ≡ sha b → a ≡ b)
      → input.metadata ≡ some (field k undefined fs)
      → column (obj (field k undefined fs)) ≡ obj fs
      → compute_admin_hash quote number_text sha p
          (reread (kept column) (admin_event seq now input))
        ≢ compute_admin_hash quote number_text sha p (admin_event seq now input)
  unfolding admin_event
  admin_event-undefined sha column p seq now input k fs collision_free e c same =
      compute_admin_hash-undefined sha p (admin_event seq now input) k fs collision_free
        (rw (e, c) at same)

-- An action recorded with metadata that has an `undefined` property, which the column gives back
-- without it, leaves a log that does not verify, against any head and for a digest without
-- collisions: the hash was taken over `null` in its place.
pub verify_admin_chain-undefined :
    (quote : Text → Text) (number_text : Num → Text) (sha : Text → Text) (column : Json → Json)
    (now : ℕ) (input : AdminAction) (k : Text) (fs : Fields) (s : AdminLog)
    (head : Option ChainHead)
    → ((a b : Text) → sha a ≡ sha b → a ≡ b)
    → input.metadata ≡ some (field k undefined fs)
    → column (obj (field k undefined fs)) ≡ obj fs
    → let s' = record_admin_action (writer quote number_text sha column) now input s in
      (verify_admin_chain quote number_text sha s'.rows head).ok ≡ false
unfolding verify_admin_chain record_admin_action
verify_admin_chain-undefined quote number_text sha column now input k fs s head collision_free e c =
    let compute = compute_admin_hash quote number_text sha in
    let before = admin_head s.head in
    let event = admin_event (before.last_seq + 1) now input in
    verify_chain-broken admin_seq compute s.rows
      (record {
        event = reread (kept column) event;
        prev_hash = before.last_hash;
        hash = compute before.last_hash event;
      })
      head
      (admin_event-undefined quote number_text sha column before.last_hash (before.last_seq + 1) now
        input k fs collision_free e c)
