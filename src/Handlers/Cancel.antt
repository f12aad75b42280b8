-- ===== src/Handlers/Cancel.antt =====
-- Cancelling orders, where the driver reports `null` for a hash without a row.
use perpetual_custom.Base.{
  Bool-cases, ◌≡◌, ◌≢◌, ◌⊎◌, refl, ap₂, inl, inr, Bool, true, false, none, some, List, [], ◌∷◌,
  ◌++◌, map, any, arith, Option-cases, if◌then◌else◌, ok, err,
}
use perpetual_custom.Base.Text.{Text, text_eq}
use perpetual_custom.BigNumber.{BigNumber}
use perpetual_custom.Types.{SignedOrderEntity, type_error}
use perpetual_custom.OrderUtils.{deserialize_order_to_sra_order}
use perpetual_custom.Store.{OrderStore}
use perpetual_custom.Service.{
  World, null_row, cancel_orders_by_hash, empty_criteria, get_order_by_hash_if_exists,
}
use perpetual_custom.Handlers.{
  find_one, find_each, emit_each, cancelled_event, orders_hash, cancel_order,
}

module _ {V : Type 0} ⦃N : BigNumber V⦄ where
  emit_each-some :
      (es : List SignedOrderEntity)
      → emit_each {V = V} (map (λ e. some (deserialize_order_to_sra_order e)) es)
        ≡ (map (λ e. cancelled_event (deserialize_order_to_sra_order e)) es, ok 200)
  unfolding emit_each
  emit_each-some [] = refl
  emit_each-some (e ∷ es) = rw (emit_each-some es) refl

module _ {Db : Type 0} ⦃S : OrderStore Db⦄ where
  -- No row has the hash.
  abbrev pub is_missing : Db → Text → Bool
  is_missing db h = elim (S.row h db) [ none ↦ true | some _ ↦ false ]

  rows-of_present :
      (hashes : List Text) (db : Db)
      → any (is_missing db) hashes ≡ false
      → (es : List SignedOrderEntity) × (map (λ h. S.row h db) hashes ≡ map some es)
  rows-of_present [] db h = ([], refl)
  rows-of_present (x ∷ hashes) db h = elim (Option-cases (S.row x db)) [
    | inl e ↦ absurd (ground (arith, e, h))
    | inr (row, e) ↦
        let (es, rows) = rows-of_present hashes db (rw (e, is_missing) at h) in
        (row ∷ es, ap₂ ◌∷◌ e rows)
  ]

  find_each-rows :
      (V : Type 0) ⦃N : BigNumber V⦄ (hashes : List Text) (es : List SignedOrderEntity) (db : Db)
      → map (λ h. S.row h db) hashes ≡ map some es
      → find_each {V = V} null_row hashes db
        ≡ ok (map (λ e. some (deserialize_order_to_sra_order e)) es)
  unfolding find_each find_one get_order_by_hash_if_exists
  find_each-rows V [] [] db h = refl
  find_each-rows V [] (e ∷ es) db h = absurd (cc h)
  find_each-rows V (x ∷ hashes) [] db h = absurd (cc h)
  find_each-rows V (x ∷ hashes) (e ∷ es) db h =
      let first : S.row x db ≡ some e = cc h in
      let rest : map (λ y. S.row y db) hashes ≡ map some es = cc h in
      rw (first, find_one) (rw (find_each-rows V hashes es db rest) refl)

  find_each-missing :
      (V : Type 0) ⦃N : BigNumber V⦄ (hashes : List Text) (db : Db)
      → any (is_missing db) hashes ≡ true
      → find_each {V = V} null_row hashes db ≡ err type_error
  unfolding find_each find_one get_order_by_hash_if_exists
  find_each-missing V [] db h = absurd (cc h)
  find_each-missing V (x ∷ hashes) db h = elim (Option-cases (S.row x db)) [
    | inl e ↦ rw (e, find_one) refl
    | inr (row, e) ↦
        rw (e, find_one) (rw (find_each-missing V hashes db (rw (e, is_missing) at h)) refl)
  ]

module _ {V : Type 0} ⦃N : BigNumber V⦄ {Db : Type 0} ⦃S : OrderStore Db⦄ where
  pub cancel_order-removes :
      (h : Text) (hs : List Text) (w : World V Db)
      → any (is_missing w.orders) (h ∷ hs) ≡ false
      → (es : List SignedOrderEntity) × (w' : World V Db) × (map (λ x. S.row x w.orders) (h ∷ hs)
          ≡ map some es)
        × (cancel_order null_row (orders_hash (h ∷ hs)) w ≡ (w', ok 200))
        × (w'.events ≡ w.events ++ map (λ e. cancelled_event (deserialize_order_to_sra_order e)) es)
        × ((x : Text)
            → S.row x w'.orders ≡ (if any (text_eq x) (h ∷ hs) then none else S.row x w.orders))
  unfolding cancel_order cancel_orders_by_hash
  cancel_order-removes h hs w present =
      let (es, rows) = rows-of_present (h ∷ hs) w.orders present in
      (
        es,
        record w {
          orders = S.delete (h ∷ hs) w.orders;
          events = w.events ++ map (λ e. cancelled_event (deserialize_order_to_sra_order e)) es;
        },
        rows,
        rw (find_each-rows V (h ∷ hs) es w.orders rows, cancel_order)
            (rw (emit_each-some {V = V} es) refl),
        refl,
        λ x. S.row-delete x (h ∷ hs) w.orders,
      )

  -- A request without a hash is refused by the driver.
  pub cancel_order-empty :
      (w : World V Db) → cancel_order null_row (orders_hash []) w ≡ (w, err empty_criteria)
  unfolding cancel_order cancel_orders_by_hash find_each
  cancel_order-empty w = refl

  pub cancel_order-missing :
      (hashes : List Text) (w : World V Db)
      → any (is_missing w.orders) hashes ≡ true
      → cancel_order null_row (orders_hash hashes) w ≡ (w, err type_error)
  unfolding cancel_order
  cancel_order-missing hashes w missing =
      rw (find_each-missing V hashes w.orders missing, cancel_order) refl

  -- The orders of the hashes are gone and announced.
  abbrev pub IsCancelled : List Text → World V Db → Type 0
  IsCancelled hashes w =
      (es : List SignedOrderEntity) × (w' : World V Db) × (hashes ≢ [])
      × (map (λ h. S.row h w.orders) hashes ≡ map some es)
      × (cancel_order null_row (orders_hash hashes) w ≡ (w', ok 200))
      × (w'.events ≡ w.events ++ map (λ e. cancelled_event (deserialize_order_to_sra_order e)) es)
      × ((h : Text)
          → S.row h w'.orders ≡ (if any (text_eq h) hashes then none else S.row h w.orders))

  -- If there is a hash and every one has a row, the request is answered: the rows of the hashes are
  -- gone and all others are as before, and for each hash its order is announced, in the order of the
  -- request, with its whole amount as the filled amount. If a hash has none, the request fails with a
  -- `TypeError`, and if there is no hash, with the driver's error; then nothing is deleted or
  -- announced.
  pub cancel_order-whole :
      (hashes : List Text) (w : World V Db)
      → if any (is_missing w.orders) hashes
        then cancel_order null_row (orders_hash hashes) w ≡ (w, err type_error)
        else (hashes ≡ [])
          × (cancel_order null_row (orders_hash hashes) w ≡ (w, err empty_criteria))
        ⊎ IsCancelled hashes w
  cancel_order-whole [] w = inl (refl, cancel_order-empty w)
  cancel_order-whole (x ∷ hashes) w = elim (Bool-cases (any (is_missing w.orders) (x ∷ hashes))) [
    | inl missing ↦ rw missing (cancel_order-missing (x ∷ hashes) w missing)
    | inr present ↦
        let (es, w', rows, run, events, after) = cancel_order-removes x hashes w present in
        rw present (inr (es, w', (λ e. cc), rows, run, events, after))
  ]
