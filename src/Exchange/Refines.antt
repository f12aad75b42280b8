-- ===== src/Exchange/Refines.antt =====
-- About the handlers over the table and the abstract exchange over its book.
use perpetual_custom.Base.{
  ℕ, ◌≡◌, refl, sym, ap, ◌∙◌, subst, inl, inr, true, false, none, List, [], ◌∷◌, any, arith, All,
  All-imp, All-both, Bool-cases, Option-cases, Result-cases, if◌then◌else◌, ok, err,
}
use mathlib.Core.Path.{fun_ext}
use perpetual_custom.Base.Text.{Text, text_eq}
use perpetual_custom.BigNumber.{BigNumber}
use perpetual_custom.Types.{Order, SignedOrder, SraOrder, Error}
use perpetual_custom.Ethers.{Ethers, Contracts}
use perpetual_custom.Hex.{bn_to_bytes32}
use perpetual_custom.Orders.{get_order_hash, get_order_flags}
use perpetual_custom.OrderUtils.RoundTrip.{IsIntegral}
use perpetual_custom.Store.{OrderStore}
use perpetual_custom.Service.{Env, World, Fulfilment, null_row, fulfill_order, add_order}
use perpetual_custom.Service.Fulfil.{fills_of}
use perpetual_custom.Service.Effects.{fills_of-IsMatch, fulfill_order-balance}
use perpetual_custom.Service.Writes.{fulfill_order-Written, fulfill_order-err}
use perpetual_custom.Handlers.{orders_hash, cancel_order, post_order, post_fulfilled}
use perpetual_custom.Handlers.Laws.{api_order, add_order-ok, post_order-parts, post_fulfilled-ok}
use perpetual_custom.Handlers.Cancel.{
  is_missing, cancel_order-empty, cancel_order-removes, cancel_order-missing,
}
use perpetual_custom.Exchange.{Request, post, cancel, book, put, remove, put_fills, handle, serve}
use perpetual_custom.Exchange.Books.{book_row, book-save, book-save_all, fills_of-book}
use perpetual_custom.Exchange.Moves.{
  IsWellFormed, IsWhole, IsPresent, Moves, refused, posted, cancelled, Runs, done, step,
}
use perpetual_custom.Exchange.Sound.{
  IsSoundBook, IsSoundOrder-found, Moves-IsSoundBook, Runs-IsSoundBook,
}

module _ {V : Type 0} ⦃N : BigNumber V⦄ where
  get_order_hash-total :
      (E : Ethers) (c : Contracts) (o : Order V)
      → N.is_integer o.salt ≡ true
      → (hash : Text) × (get_order_hash E c o ≡ ok hash)
  unfolding get_order_hash get_order_flags bn_to_bytes32
  get_order_hash-total E c o h = rw h (_, refl)

  module _ {Db : Type 0} ⦃S : OrderStore Db⦄ where
    fulfilled-book :
        (env : Env) (now_ms : ℕ) (o : SignedOrder V) (w w' : World V Db) (f : Fulfilment V)
        → IsSoundBook (book V w.orders)
        → fulfill_order env now_ms o w ≡ (w', ok f)
        → book V w'.orders ≡ put_fills (fills_of env now_ms o w.orders) (book V w.orders)
    unfolding put_fills
    fulfilled-book env now_ms o w w' f sound h =
        let fs = fills_of env now_ms o w.orders in
        elim (fulfill_order-Written env now_ms o w w' f h) [
          | inl (none_filled, same) ↦ rw (none_filled, same) refl
          | inr written ↦
              ap (book V) (written.orders)
              ∙ book-save_all fs w.orders (
                  All-imp _ (λ a. IsIntegral a.0) fs
                    (λ a e. (IsSoundOrder-found (book V w.orders) _ a.0 sound e).integral)
                    (fills_of-book env now_ms o w.orders))
        ]

    add_order-total :
        (env : Env) (now_ms : ℕ) (o : SignedOrder V) (filled_amount : V) (w : World V Db)
        → N.is_integer o.salt ≡ true
        → (a : SraOrder V) × ((add_order env now_ms o filled_amount w).1 ≡ ok a)
    unfolding add_order
    add_order-total env now_ms o filled_amount w h =
        let (hash, e) = get_order_hash-total env.ethers env.contracts o.order h in
        rw (e, add_order) (_, refl)

    pub post_fulfilled-total :
        (env : Env) (now_ms : ℕ) (o : SignedOrder V) (f : Fulfilment V) (w : World V Db)
        → N.is_integer o.salt ≡ true
        → (post_fulfilled env now_ms o f w).1 ≡ ok 200
    unfolding post_fulfilled
    post_fulfilled-total env now_ms o f w h =
        let (a, e) = add_order-total env now_ms o f.filled_amount w h in rw (e, post_fulfilled) refl

    pub post_order-err :
        (env : Env) (now_ms : ℕ) (o : SignedOrder V) (w : World V Db) (e : Error)
        → N.is_integer o.salt ≡ true
        → (post_order env now_ms o w).1 ≡ err e
        → (post_order env now_ms o w).0 ≡ w
    unfolding post_order
    post_order-err env now_ms o w e salt h = elim (Result-cases (fulfill_order env now_ms o w).1) [
      | inl (x, d) ↦
          rw (d, post_order)
            (fulfill_order-err env now_ms o w _ x
              (ap (λ r. ((fulfill_order env now_ms o w).0, r)) d))
      | inr (f, d) ↦
          let fails = rw (d, post_order) at h in
          let returns = post_fulfilled-total env now_ms o f (fulfill_order env now_ms o w).0 salt in
          absurd (cc)
    ]

    -- What a post that returns has done to the book.
    post_order-Moves :
        (env : Env) (now_ms : ℕ) (o : SignedOrder V) (w w' : World V Db) (status : ℕ)
        → IsWhole o
        → IsSoundBook (book V w.orders)
        → post_order env now_ms o w ≡ (w', ok status)
        → Moves env (book V w.orders) (post now_ms o) (book V w'.orders)
    unfolding api_order
    post_order-Moves env now_ms o w w' status (amount, expiration, salt, nonneg) sound h =
        let fs = fills_of env now_ms o w.orders in
        let (f, matched, finished) = post_order-parts env now_ms o w w' status h in
        let run = ap (λ r. ((fulfill_order env now_ms o w).0, r)) matched in
        let (sum, _, most, _) = fulfill_order-balance env now_ms o w _ f nonneg run in
        let (a, mid, added, orders, _) = post_fulfilled-ok env now_ms o f _ w' status finished in
        let (hash, hashed, same, after) = add_order-ok env now_ms o f.filled_amount _ mid a added in
        let integral : IsIntegral a =
          subst IsIntegral (sym same)
            (record { amount = amount; expiration = expiration; salt = salt }) in
        posted fs hash
          (All-both _ _ fs (fills_of-book env now_ms o w.orders)
            (fills_of-IsMatch env now_ms o w.orders))
          (subst (λ x. N.lte x o.amount ≡ true) sum most) hashed
          (ap (book V) (orders ∙ ap (λ v. v.orders) after)
            ∙ book-save a (fulfill_order env now_ms o w).0.orders integral
            ∙ ap (put a) (fulfilled-book env now_ms o w _ f sound run)
            ∙ ap (λ x. put x (put_fills fs (book V w.orders)))
                (same ∙ ap (api_order now_ms o hash) sum))

IsPresent-All :
    (V : Type 0) ⦃N : BigNumber V⦄ {Db : Type 0} ⦃S : OrderStore Db⦄ (hashes : List Text) (db : Db)
    → any (is_missing db) hashes ≡ false
    → All (IsPresent (book V db)) hashes
IsPresent-All V [] db h = tt
IsPresent-All V ⦃S⦄ (x ∷ hashes) db h = elim (Option-cases (S.row x db)) [
  | inl e ↦ absurd (ground (arith, e, h))
  | inr (row, e) ↦ ((_, book_row V x db row e), IsPresent-All V hashes db (rw (e, is_missing) at h))
]

book-of_removed_rows :
    (V : Type 0) ⦃N : BigNumber V⦄ {Db : Type 0} ⦃S : OrderStore Db⦄ (hashes : List Text)
    (db db' : Db) (h : Text)
    → S.row h db' ≡ (if any (text_eq h) hashes then none else S.row h db)
    → book V db' h ≡ remove hashes (book V db) h
book-of_removed_rows V hashes db db' h e = elim (Bool-cases (any (text_eq h) hashes)) [
  | inl gone ↦ rw (e, book) (rw gone refl)
  | inr kept ↦ rw (e, book) (rw kept refl)
]

module _ {V : Type 0} ⦃N : BigNumber V⦄ {Db : Type 0} ⦃S : OrderStore Db⦄ (env : Env) where
  cancel_order-Moves :
      (hashes : List Text) (w : World V Db)
      → Moves env
          (book V w.orders)
          (cancel hashes)
          (book V (cancel_order null_row (orders_hash hashes) w).0.orders)
  cancel_order-Moves [] w = refused (ap (λ r. book V r.0.orders) (cancel_order-empty w))
  cancel_order-Moves (x ∷ hashes) w = elim (Bool-cases (any (is_missing w.orders) (x ∷ hashes))) [
    | inl missing ↦
        refused (ap (λ r. book V r.0.orders) (cancel_order-missing (x ∷ hashes) w missing))
    | inr present ↦
        let (_, w', _, run, _, rows) = cancel_order-removes x hashes w present in
        cancelled (IsPresent-All V (x ∷ hashes) w.orders present) (
          ap (λ r. book V r.0.orders) run
          ∙ fun_ext λ h. book-of_removed_rows V (x ∷ hashes) w.orders w'.orders h (rows h))
  ]

  handle-Moves :
      (r : Request V) (w : World V Db)
      → IsWellFormed r
      → IsSoundBook (book V w.orders)
      → Moves env (book V w.orders) r (book V (handle env r w).0.orders)
  unfolding handle
  handle-Moves (cancel hashes) w well sound = cancel_order-Moves hashes w
  handle-Moves (post now_ms o) w well sound = elim (Result-cases (post_order env now_ms o w).1) [
    | inl (e, fails) ↦
        refused (ap (λ v. book V v.orders) (post_order-err env now_ms o w e well.2 fails))
    | inr (status, returns) ↦
        post_order-Moves env now_ms o w _ status well sound
          (ap (λ r. ((post_order env now_ms o w).0, r)) returns)
  ]

  pub serve-Runs :
      (rs : List (Request V)) (w : World V Db)
      → All IsWellFormed rs
      → IsSoundBook (book V w.orders)
      → Runs env (book V w.orders) rs (book V (serve env rs w).orders)
  unfolding serve
  serve-Runs [] w well sound = done
  serve-Runs (r ∷ rs) w (well, wells) sound =
      let move = handle-Moves r w well sound in
      step move (serve-Runs rs (handle env r w).0 wells (Moves-IsSoundBook move well sound))

  -- From a table whose orders are sound, any sequence of well-formed requests leaves them so: no
  -- order's filled amount is negative or more than its amount.
  pub serve-IsSoundBook :
      (rs : List (Request V)) (w : World V Db)
      → All IsWellFormed rs
      → IsSoundBook (book V w.orders)
      → IsSoundBook (book V (serve env rs w).orders)
  serve-IsSoundBook rs w wells sound = Runs-IsSoundBook (serve-Runs rs w wells sound) wells sound
