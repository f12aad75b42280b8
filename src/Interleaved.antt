-- ===== src/Interleaved.antt =====
-- Requests that overlap: src/handlers/orderbook_handlers.ts and src/services/orderbook_service.ts give
-- way to other requests at each `await` on the database or the chain. A request holds its local
-- variables from one `await` to the next. Rows that are saved together are saved in any order,
-- and the lookups of one cancellation are one move, though other requests could come between them.
pub mod Sound
pub mod Alone
pub mod Serial
use perpetual_custom.Base.{
  ℕ, ◌==◌, ◌≡◌, Option, none, some, List, [], ◌∷◌, ◌++◌, map, if◌then◌else◌, Result, ok, err, ◌>>=◌,
}
use perpetual_custom.Base.Text.{Text}
use perpetual_custom.BigNumber.{BigNumber, gt}
use perpetual_custom.Types.{SignedOrder, SraOrder, SignedOrderEntity, TradeHistoryEntity, Error}
use perpetual_custom.Ethers.{TxReceipt}
use perpetual_custom.Store.{OrderStore}
use perpetual_custom.Matching.{MatchState, matching_orders, best_first, match_loop, match_start}
use perpetual_custom.Service.{
  Env, World, Event, Fulfilment, null_row, order_event, trade_record, history_rows, trade_history,
  transact, cancel_orders_by_hash,
}
use perpetual_custom.Handlers.{find_each, after_delete, post_fulfilled}
use perpetual_custom.Exchange.Moves.{IsWhole}

-- Where a request stands, with the local variables that are live there.
pub data Pc (V : Type 0) : Type 0 where
  -- before it, or after it was answered
  idle : Pc V
  -- `fulfillOrderAsync` waits for its transaction
  trading : ℕ → SignedOrder V → MatchState V → Pc V
  -- it waits for the rows that are left to save
  writing : ℕ → SignedOrder V → MatchState V → TxReceipt → List SignedOrderEntity → Pc V
  -- it has emitted the filled orders, and waits for the rows of the history that are left to save
  recording : ℕ → SignedOrder V → MatchState V → TxReceipt → List TradeHistoryEntity → Pc V
  -- it has returned the remaining amount, and `postOrderAsync` adds the order
  adding : SignedOrder V → V → Pc V
  -- `cancelOrderAsync` has looked all orders up
  deleting : List Text → List (Option (SraOrder V)) → Pc V

-- The requests in flight, by a number, over the tables and the events that they share.
pub record System (V Db : Type 0) : Type 0 where
  pub world : World V Db
  pub pc : ℕ → Pc V

abbrev pub update : {V : Type 0} → (ℕ → Pc V) → ℕ → Pc V → ℕ → Pc V
update pc i p j = if j == i then p else pc j

abbrev pub emit : {V Db : Type 0} → List (Event V) → World V Db → World V Db
emit es w = record w { events = w.events ++ es }

module _ {V : Type 0} ⦃N : BigNumber V⦄ where
  abbrev pub fulfilment_of : SignedOrder V → V → Fulfilment V
  fulfilment_of o remaining_amount = record {
    filled_amount = N.minus o.amount remaining_amount;
    is_fullfilled = N.eq remaining_amount (N.of_ℕ 0);
  }

  -- What `fulfillOrderAsync` does between its look at the table and its transaction: nothing where
  -- the test of the first `if` fails.
  unfoldable pub matched :
      Env → ℕ → SignedOrder V → List (SraOrder V) → Result Error (Option (MatchState V))
  matched env now_ms o [] = ok none
  matched env now_ms o (a ∷ all_orders) =
      if gt o.amount (N.of_ℕ 0)
      then (do
        s ←
            match_loop env.ethers env.contracts env.operator o (best_first o (a ∷ all_orders))
              (match_start o)
        ok (some s))
      else ok none

  module _ {Db : Type 0} ⦃S : OrderStore Db⦄ where
    -- The end of `cancelOrderAsync`.
    unfoldable pub delete_and_emit :
        List Text → List (Option (SraOrder V)) → World V Db → World V Db
    delete_and_emit hashes orders w = (after_delete orders w (cancel_orders_by_hash hashes w)).0

    -- What one request does until it gives way; the orders that are posted have whole numbers.
    pub data Move (env : Env) (w : World V Db) : Pc V → World V Db → Pc V → Type 0 where
      begin :
          {now_ms : ℕ} {o : SignedOrder V} {s : MatchState V}
          → IsWhole o
          → matched env now_ms o (matching_orders now_ms env.expiration_buffer o w.orders)
            ≡ ok (some s)
          → Move env w idle w (trading now_ms o s)
      pass :
          (now_ms : ℕ) {o : SignedOrder V}
          → IsWhole o
          → matched env now_ms o (matching_orders now_ms env.expiration_buffer o w.orders) ≡ ok none
          → Move env w idle w (adding o o.amount)
      reject :
          {now_ms : ℕ} {o : SignedOrder V} {s : MatchState V} (e : Error)
          → transact env s.operation ≡ err e
          → Move env w (trading now_ms o s) w idle
      confirm :
          {now_ms : ℕ} {o : SignedOrder V} {s : MatchState V} {receipt : TxReceipt}
          → transact env s.operation ≡ ok receipt
          → Move env w (trading now_ms o s) w (writing now_ms o s receipt s.updated_orders)
      save :
          {now_ms : ℕ} {o : SignedOrder V} {s : MatchState V} {receipt : TxReceipt}
          (xs : List SignedOrderEntity) (e : SignedOrderEntity) (ys : List SignedOrderEntity)
          → Move env w
              (writing now_ms o s receipt (xs ++ e ∷ ys))
              (record w { orders = S.save e w.orders })
              (writing now_ms o s receipt (xs ++ ys))
      announce :
          {now_ms : ℕ} {o : SignedOrder V} {s : MatchState V} {receipt : TxReceipt}
          → Move env w
              (writing now_ms o s receipt [])
              (emit (map order_event s.emitted_orders) w)
              (recording now_ms o s receipt (history_rows receipt now_ms o s))
      keep :
          {now_ms : ℕ} {o : SignedOrder V} {s : MatchState V} {receipt : TxReceipt}
          (xs : List TradeHistoryEntity) (e : TradeHistoryEntity) (ys : List TradeHistoryEntity)
          → Move env w
              (recording now_ms o s receipt (xs ++ e ∷ ys))
              (record w { history = w.history ++ e ∷ [] })
              (recording now_ms o s receipt (xs ++ ys))
      report :
          {now_ms : ℕ} {o : SignedOrder V} {s : MatchState V} {receipt : TxReceipt}
          → Move env w
              (recording now_ms o s receipt [])
              (emit (map (λ e. trade_record (trade_history e)) (history_rows receipt now_ms o s)) w)
              (adding o s.remaining_amount)
      add :
          (now_ms : ℕ) {o : SignedOrder V} {r : V}
          → Move env w (adding o r) (post_fulfilled env now_ms o (fulfilment_of o r) w).0 idle
      look_up :
          {hashes : List Text} {orders : List (Option (SraOrder V))}
          → find_each null_row hashes w.orders ≡ ok orders
          → Move env w idle w (deleting hashes orders)
      delete :
          {hashes : List Text} {orders : List (Option (SraOrder V))}
          → Move env w (deleting hashes orders) (delete_and_emit hashes orders w) idle

    -- Any request may move next.
    pub data Step (env : Env) (s : System V Db) : System V Db → Type 0 where
      pick :
          (i : ℕ) {w : World V Db} {p : Pc V}
          → Move env s.world (s.pc i) w p
          → Step env s (record { world = w; pc = update s.pc i p })

    pub data Steps (env : Env) (s : System V Db) : System V Db → Type 0 where
      here : Steps env s s
      later : {t u : System V Db} → Steps env s t → Step env t u → Steps env s u
