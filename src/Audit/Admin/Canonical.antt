-- ===== src/Audit/Admin/Canonical.antt =====
-- About stableStringify and verifyAdminChain of lib/audit/admin-chain.ts for metadata that a
-- `jsonb` column returns with its keys in another order.
use captivo_access.Prelude.{◌≡◌, ◌≢◌, refl, ap, ◌∙◌, List, [], ◌∷◌, Option, Text, map, All}
use captivo_access.Json.{Num, Json, arr, obj, Items, nil, cons, Fields, field, end}
use captivo_access.Audit.Chain.{chain_hash}
use captivo_access.Audit.Verify.{Stored, ChainHead}
use captivo_access.Audit.Verify.Reread.{on_event, Unseen, verify_chain-on_event}
use captivo_access.Audit.Admin.{
  AdminChainable, admin_seq, sort_keys, stable_stringify, item_texts, field_texts, or_null, reread,
  canonicalize_admin, compute_admin_hash, verify_admin_chain,
}
use captivo_access.Audit.Admin.Sorting.{insert_key_comm}

-- The same value with the properties of its objects in another order, at any depth. Two
-- properties that change places have different keys.
mutual
  pub data Reordered : Json → Json → Type 0 where
    same : (v : Json) → Reordered v v
    in_arr : {vs ws : Items} → ItemsReordered vs ws → Reordered (arr vs) (arr ws)
    in_obj : {fs gs : Fields} → FieldsReordered fs gs → Reordered (obj fs) (obj gs)

  pub data ItemsReordered : Items → Items → Type 0 where
    no_items : ItemsReordered nil nil
    next_item :
        {v w : Json} {vs ws : Items}
        → Reordered v w
        → ItemsReordered vs ws
        → ItemsReordered (cons v vs) (cons w ws)

  pub data FieldsReordered : Fields → Fields → Type 0 where
    no_fields : FieldsReordered end end
    next_field :
        (k : Text) {v w : Json} {fs gs : Fields}
        → Reordered v w
        → FieldsReordered fs gs
        → FieldsReordered (field k v fs) (field k w gs)
    swap :
        (k l : Text) (v w : Json) (fs : Fields)
        → k ≢ l
        → FieldsReordered (field k v (field l w fs)) (field l w (field k v fs))
    after :
        {fs gs hs : Fields} → FieldsReordered fs gs → FieldsReordered gs hs → FieldsReordered fs hs

module _ (quote : Text → Text) (number_text : Num → Text) where
  mutual
    unfolding stable_stringify item_texts field_texts sort_keys

    text_of_Reordered :
        {v w : Json}
        → Reordered v w
        → stable_stringify quote number_text v ≡ stable_stringify quote number_text w
    text_of_Reordered (same v) = refl
    text_of_Reordered (in_arr r) = rw (texts_of_items r) refl
    text_of_Reordered (in_obj r) = rw (sorted_of_fields r) refl

    texts_of_items :
        {vs ws : Items}
        → ItemsReordered vs ws
        → item_texts quote number_text vs ≡ item_texts quote number_text ws
    texts_of_items no_items = refl
    texts_of_items (next_item r rs) = rw (text_of_Reordered r, texts_of_items rs) refl

    sorted_of_fields :
        {fs gs : Fields}
        → FieldsReordered fs gs
        → sort_keys (field_texts quote number_text fs)
          ≡ sort_keys (field_texts quote number_text gs)
    sorted_of_fields no_fields = refl
    sorted_of_fields (next_field k r rs) = rw (text_of_Reordered r, sorted_of_fields rs) refl
    sorted_of_fields (swap k l v w fs differ) =
        insert_key_comm (k, stable_stringify quote number_text v)
          (l, stable_stringify quote number_text w) _ differ
    sorted_of_fields (after r s) = sorted_of_fields r ∙ sorted_of_fields s

  or_null-Reordered :
      {v w : Json}
      → Reordered v w
      → stable_stringify quote number_text (or_null v)
        ≡ stable_stringify quote number_text (or_null w)
  or_null-Reordered (same v) = refl
  or_null-Reordered (in_arr r) = text_of_Reordered (in_arr r)
  or_null-Reordered (in_obj r) = text_of_Reordered (in_obj r)

  pub canonicalize_admin-reread :
      (column : Json → Json) (e : AdminChainable)
      → Reordered e.metadata (column e.metadata)
      → canonicalize_admin quote number_text (reread column e)
        ≡ canonicalize_admin quote number_text e
  unfolding canonicalize_admin
  canonicalize_admin-reread column e r = rw (← or_null-Reordered r) refl

  reread-Unseen :
      (sha : Text → Text) (column : Json → Json) (rows : List (Stored AdminChainable))
      → All (λ r. Reordered r.event.metadata (column r.event.metadata)) rows
      → All (Unseen admin_seq (compute_admin_hash quote number_text sha) (reread column)) rows
  unfolding compute_admin_hash
  reread-Unseen sha column [] h = tt
  reread-Unseen sha column (r ∷ rows) h = (
    (refl, ap (chain_hash sha r.prev_hash) (canonicalize_admin-reread column r.event h.0)),
    reread-Unseen sha column rows h.1,
  )

-- The verifier gives the same result for rows of administrative actions and for the same rows with
-- the metadata as a column returns it, where the column returns the metadata of each row with the
-- properties of its objects in any order, at any depth.
pub verify_admin_chain-reread :
    (quote : Text → Text) (number_text : Num → Text) (sha : Text → Text) (column : Json → Json)
    (rows : List (Stored AdminChainable)) (head : Option ChainHead)
    → All (λ r. Reordered r.event.metadata (column r.event.metadata)) rows
    → verify_admin_chain quote number_text sha (map (on_event (reread column)) rows) head
      ≡ verify_admin_chain quote number_text sha rows head
unfolding verify_admin_chain
verify_admin_chain-reread quote number_text sha column rows head h =
    verify_chain-on_event admin_seq (compute_admin_hash quote number_text sha) (reread column) rows
      head (reread-Unseen quote number_text sha column rows h)
