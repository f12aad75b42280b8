-- ===== src/Tests/Interleaved.antt =====
-- Two requests that overlap at the inputs of Data.antt: both read the table before either has written
-- it, and both take the same two units of the cheap order.
use perpetual_custom.Base.{
  ℕ, ◌==◌, ◌≡◌, refl, Option, some, subst, ap, ◌∙◌, List, [], ◌∷◌, map, false, ok,
}
use perpetual_custom.Base.Int.{ℤ}
use perpetual_custom.Base.Text.{codes}
use perpetual_custom.BigNumber.Whole.{whole}
use perpetual_custom.Store.Rows.{rows, row_of}
use perpetual_custom.Types.{SignedOrderEntity}
use perpetual_custom.Ethers.{TxReceipt}
use perpetual_custom.Matching.{MatchState, matching_orders}
use perpetual_custom.Service.{Env, World, transact, settle}
use perpetual_custom.Handlers.{post_fulfilled}
use perpetual_custom.Exchange.{serve}
use perpetual_custom.Interleaved.{
  Pc, idle, trading, System, update, fulfilment_of, matched, Move, begin, confirm, save, announce,
  add, Step, pick, Steps, here, later,
}
use perpetual_custom.Interleaved.Sound.{IsSoundSystem, Steps-IsSoundSystem}
use perpetual_custom.Interleaved.Alone.{
  done, then, Solo-trans, settle-Solo, Alone, Alone-Solo, start_at,
}
use perpetual_custom.Interleaved.Serial.{Steps-serve}
use perpetual_custom.Tests.Data.{env, buying, world, table, cheap}
use perpetual_custom.Tests.Exchange.{requests, table-IsSoundBook}

abbrev initial : System ℤ (List SignedOrderEntity)
initial = record { world = world; pc = λ _. idle }

abbrev trade :
    (s : MatchState ℤ) × (matched env 0 buying (matching_orders 0 0 buying table) ≡ ok (some s))
unfolding perpetual_custom.Interleaved.matched perpetual_custom.Matching.matching_orders
    perpetual_custom.OrderUtils.is_fresh_order perpetual_custom.Base.Int.◌*ℤ◌
    perpetual_custom.OrderUtils.deserialize_order_to_sra_order perpetual_custom.Matching.is_fillable
    perpetual_custom.Matching.is_price_matched perpetual_custom.Matching.match_loop
    perpetual_custom.Matching.best_first perpetual_custom.OrderUtils.sort_by
    perpetual_custom.OrderUtils.compare_ask_order perpetual_custom.Matching.match_start
    perpetual_custom.Matching.match_one perpetual_custom.Matching.fill_both
    perpetual_custom.TradeOperation.fill_signed_order perpetual_custom.Orders.fill_to_trade_data
    perpetual_custom.Orders.order_to_bytes perpetual_custom.Orders.order_to_solidity
    perpetual_custom.Orders.get_order_flags perpetual_custom.Hex.bn_to_bytes32
    perpetual_custom.TradeOperation.add_trade_arg perpetual_custom.Matching.fresh_fillable
    perpetual_custom.OrderUtils.serialize_order perpetual_custom.OrderUtils.jsonify_perpetual_order
    perpetual_custom.Base.Int.◌-ℤ◌ perpetual_custom.Base.Int.◌+ℤ◌
trade = (_, refl)

abbrev mined : (receipt : TxReceipt) × (transact env trade.0.operation ≡ ok receipt)
unfolding transact perpetual_custom.TradeOperation.commit trade
mined = (_, refl)

-- Both requests have read the table, and wait for their transactions.
abbrev waiting : System ℤ (List SignedOrderEntity)
waiting =
    let p = trading 0 buying trade.0 in
    record { world = world; pc = update (update (λ _. idle) 0 p) 1 p }

waiting_reached : Steps env initial waiting
waiting_reached =
    later (later here (pick 0 (begin (refl, refl, refl, refl) trade.1)))
      (pick 1 (begin (refl, refl, refl, refl) trade.1))

Steps-IsSoundSystem_example : IsSoundSystem waiting
Steps-IsSoundSystem_example = Steps-IsSoundSystem waiting_reached (table-IsSoundBook, (λ i. tt))

Steps-serve_example :
    (t : System ℤ (List SignedOrderEntity)) × Steps env waiting t
    × (t.world ≡ serve env requests world)
    × ((j : ℕ) → t.pc j ≡ waiting.pc j)
Steps-serve_example = Steps-serve env 2 requests waiting ((refl, refl, refl, refl), (tt, tt)) refl

-- What a waiting request does to the world until it is answered.
abbrev answered : World ℤ (List SignedOrderEntity) → World ℤ (List SignedOrderEntity)
answered w =
    (post_fulfilled env 0 buying (fulfilment_of buying trade.0.remaining_amount)
      (settle mined.0 0 buying trade.0 w)).0

waiting-Alone :
    (i : ℕ) (s : System ℤ (List SignedOrderEntity))
    → s.pc i ≡ trading 0 buying trade.0
    → Alone env i s (answered s.world) idle
waiting-Alone i s e =
    Alone-Solo env i s (subst (Alone env i s s.world) e (start_at env i s)) (
      Solo-trans env (settle-Solo env 0 buying trade.0 mined.0 s.world mined.1) (then (add 0) done))

history_twice :
    map (λ r. r.amount) (answered (answered world)).history
    ≡ codes "11" ∷ codes "1" ∷ codes "111" ∷ codes "11" ∷ codes "1" ∷ codes "111" ∷ []
unfolding trade mined settle post_fulfilled perpetual_custom.Service.add_order
    perpetual_custom.Orders.get_order_hash perpetual_custom.Service.history_rows
history_twice = refl

row_once :
    row_of (codes "0x01") (answered (answered world)).orders
    ≡ some (record cheap { filled_amount = codes "11" })
unfolding trade mined settle post_fulfilled perpetual_custom.Service.add_order
    perpetual_custom.Orders.get_order_hash perpetual_custom.Signature.get_eip712_hash
    perpetual_custom.Service.save_all
row_once = refl

Steps-trans :
    {s t u : System ℤ (List SignedOrderEntity)} → Steps env s t → Steps env t u → Steps env s u
Steps-trans first here = first
Steps-trans first (later rest m) = later (Steps-trans first rest) m

-- The system goes on to a state where the history has four units of the cheap order, two for each
-- request, and its row has two.
traded_twice :
    (t : System ℤ (List SignedOrderEntity)) × Steps env waiting t
    × (map (λ r. r.amount) (t.world).history
        ≡ codes "11" ∷ codes "1" ∷ codes "111" ∷ codes "11" ∷ codes "1" ∷ codes "111" ∷ [])
    × (row_of (codes "0x01") (t.world).orders ≡ some (record cheap { filled_amount = codes "11" }))
traded_twice =
    let first = waiting-Alone 0 waiting refl in
    let second = waiting-Alone 1 first.last (first.others 1 refl) in
    let world_is = second.world ∙ ap answered first.world in
    (
      second.last,
      Steps-trans first.steps second.steps,
      ap (λ w. map (λ r. r.amount) w.history) world_is ∙ history_twice,
      ap (λ w. row_of (codes "0x01") w.orders) world_is ∙ row_once,
    )
