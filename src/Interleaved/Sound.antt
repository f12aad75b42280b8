-- ===== src/Interleaved/Sound.antt =====
-- The book of orders while requests overlap.
use perpetual_custom.Base.{
  ℕ, ◌==◌, ◌≡◌, refl, sym, ap, subst, ◌∙◌, inl, inr, true, some, List, [], ◌∷◌, All, All-imp,
  All-both, All-split, All-append, >>=-eq-ok, arith, All-map, Bool-cases, ok,
}
use perpetual_custom.BigNumber.{BigNumber, gt}
use perpetual_custom.Types.{SignedOrder, SraOrder, SignedOrderEntity}
use perpetual_custom.OrderUtils.{serialize_order}
use perpetual_custom.Store.{OrderStore}
use perpetual_custom.Matching.{
  MatchState, add_filled, matching_orders, best_first, match_loop, match_start,
}
use perpetual_custom.Matching.Loop.{match_loop-Ran}
use perpetual_custom.Matching.Fills.{Fill, IsSound, left, left-nonneg}
use perpetual_custom.Service.{Env, World, cancel_orders_by_hash}
use perpetual_custom.Service.Fulfil.{fills_of, traded-eq}
use perpetual_custom.Service.Effects.{traded_sum-nonneg, traded_sum-within, fills_of-IsMatch}
use perpetual_custom.Handlers.{post_fulfilled}
use perpetual_custom.Handlers.Laws.{api_order, add_order-ok, post_fulfilled-ok}
use perpetual_custom.Exchange.Books.{book-save, book-delete, fills_of-book}
use perpetual_custom.Exchange.Refines.{post_fulfilled-total}
use perpetual_custom.Exchange.{book}
use perpetual_custom.Exchange.Moves.{IsWhole}
use perpetual_custom.Exchange.Sound.{
  IsSoundOrder, IsSoundBook, IsSoundOrder-found, put-IsSoundBook, remove-IsSoundBook,
  add_filled-IsSoundOrder,
}
use perpetual_custom.Interleaved.{
  Pc, idle, trading, writing, adding, deleting, System, update, fulfilment_of, delete_and_emit,
  matched, Move, begin, pass, reject, confirm, save, announce, keep, report, recording, add,
  look_up, delete, pick, Steps, here, later,
}

-- A row that holds a sound order.
abbrev pub IsSoundRow : (V : Type 0) ⦃N : BigNumber V⦄ → SignedOrderEntity → Type 0
IsSoundRow V e = (a : SraOrder V) × (e ≡ serialize_order a) × IsSoundOrder a

module _ {V : Type 0} ⦃N : BigNumber V⦄ where
  -- Between 0 and the amount of the order has been filled.
  abbrev pub IsPart : SignedOrder V → V → Type 0
  IsPart o r =
      (N.lte (N.of_ℕ 0) (N.minus o.amount r) ≡ true) × (N.lte (N.minus o.amount r) o.amount ≡ true)

  abbrev pub IsSoundState : SignedOrder V → MatchState V → Type 0
  IsSoundState o s = IsWhole o × All (IsSoundRow V) s.updated_orders × IsPart o s.remaining_amount

  -- What the variables of a request say, whatever the others do meanwhile.
  abbrev pub IsSoundPc : Pc V → Type 0
  IsSoundPc idle = Unit
  IsSoundPc (trading now_ms o s) = IsSoundState o s
  IsSoundPc (writing now_ms o s receipt rows) = IsSoundState o s × All (IsSoundRow V) rows
  IsSoundPc (recording now_ms o s receipt rows) = IsSoundState o s
  IsSoundPc (adding o r) = IsWhole o × IsPart o r
  IsSoundPc (deleting hashes orders) = Unit

  left-IsPart :
      (o : SignedOrder V) (fs : List (Fill V))
      → N.lte (N.of_ℕ 0) (left o.amount fs) ≡ true
      → All IsSound fs
      → IsPart o (left o.amount fs)
  left-IsPart o fs nonneg sound =
      rw (traded-eq o.amount fs) (traded_sum-nonneg fs sound, traded_sum-within o.amount fs nonneg)

  none_left-IsPart : (o : SignedOrder V) → N.lte (N.of_ℕ 0) o.amount ≡ true → IsPart o o.amount
  unfolding left
  none_left-IsPart o nonneg = left-IsPart o [] nonneg tt

  matched-run :
      (env : Env) (now_ms : ℕ) (o : SignedOrder V) (as' : List (SraOrder V)) (s : MatchState V)
      → matched env now_ms o as' ≡ ok (some s)
      → match_loop env.ethers env.contracts env.operator o (best_first o as') (match_start o) ≡ ok s
  unfolding matched
  matched-run env now_ms o [] s h = absurd (ground (arith, h))
  matched-run env now_ms o (a ∷ rest) s h = elim (Bool-cases (gt o.amount (N.of_ℕ 0))) [
    | inl e ↦ let (s', run, same) = >>=-eq-ok _ _ (rw e at h) in run ∙ ap ok (ground (arith, same))
    | inr e ↦ absurd (ground (arith, e, h))
  ]

  update-IsSoundPc :
      (pc : ℕ → Pc V) (i : ℕ) (p : Pc V)
      → ((j : ℕ) → IsSoundPc (pc j))
      → IsSoundPc p
      → (j : ℕ) → IsSoundPc (update pc i p j)
  update-IsSoundPc pc i p h k j = elim (Bool-cases (j == i)) [ inl e ↦ rw e k | inr e ↦ rw e (h j) ]

  module _ {Db : Type 0} ⦃S : OrderStore Db⦄ where
    abbrev pub IsSoundSystem : System V Db → Type 0
    IsSoundSystem s = IsSoundBook (book V s.world.orders) × ((i : ℕ) → IsSoundPc (s.pc i))

    saved-IsSoundBook :
        (e : SignedOrderEntity) (db : Db)
        → IsSoundRow V e
        → IsSoundBook (book V db)
        → IsSoundBook (book V (S.save e db))
    saved-IsSoundBook e db (a, is, h) sound =
        subst (λ x. IsSoundBook (book V (S.save x db))) (sym is)
          (subst IsSoundBook (sym (book-save a db h.integral))
            (put-IsSoundBook a (book V db) h sound))

    matched-IsSoundState :
        (env : Env) (now_ms : ℕ) (o : SignedOrder V) (db : Db) (s : MatchState V)
        → IsWhole o
        → IsSoundBook (book V db)
        → matched env now_ms o (matching_orders now_ms env.expiration_buffer o db) ≡ ok (some s)
        → IsSoundState o s
    unfolding match_start
    matched-IsSoundState env now_ms o db s whole sound h =
        let fs = fills_of env now_ms o db in
        let run =
          match_loop-Ran env.ethers env.contracts env.operator o _ (match_start o) s
            (matched-run env now_ms o _ s h) in
        let sound_fills = fills_of-IsMatch env now_ms o db in
        (
          whole,
          subst (All (IsSoundRow V)) (sym run.updated) (
              All-map (IsSoundRow V) (λ f. serialize_order (add_filled f.1 f.0)) fs
                (All-imp _ _ fs
                  (λ f (found, (good, _)).
                    let old = IsSoundOrder-found (book V db) _ f.0 sound found in
                    (add_filled f.1 f.0, refl, add_filled-IsSoundOrder f.0 f.1 old good))
                  (All-both _ _ fs (fills_of-book env now_ms o db) sound_fills))),
          subst (IsPart o) (sym run.remaining) (
              left-IsPart o fs (left-nonneg o.amount _ whole.3)
                (All-imp _ IsSound fs (λ f k. k.0) sound_fills)),
        )

    post_fulfilled-IsSoundBook :
        (env : Env) (now_ms : ℕ) (o : SignedOrder V) (r : V) (w : World V Db)
        → IsWhole o
        → IsPart o r
        → IsSoundBook (book V w.orders)
        → IsSoundBook (book V (post_fulfilled env now_ms o (fulfilment_of o r) w).0.orders)
    unfolding api_order
    post_fulfilled-IsSoundBook env now_ms o r w (amount, expiration, salt, _) (nonneg, within)
          sound =
        let f = fulfilment_of o r in
        let p = post_fulfilled env now_ms o f w in
        let run = ap (λ x. (p.0, x)) (post_fulfilled-total env now_ms o f w salt) in
        let (a, mid, added, orders, _) = post_fulfilled-ok env now_ms o f w p.0 200 run in
        let (hash, _, same, after) = add_order-ok env now_ms o f.filled_amount w mid a added in
        subst (λ db. IsSoundBook (book V db)) (sym (orders ∙ ap (λ v. v.orders) after))
          (saved-IsSoundBook (serialize_order a) w.orders
            (
              a,
              refl,
              subst IsSoundOrder (sym same) (record {
                integral = record { amount = amount; expiration = expiration; salt = salt };
                nonneg = nonneg;
                within = within;
              }),
            )
            sound)

    Move-IsSound :
        {env : Env} {w w' : World V Db} {p p' : Pc V}
        → Move env w p w' p'
        → IsSoundBook (book V w.orders)
        → IsSoundPc p
        → IsSoundBook (book V w'.orders) × IsSoundPc p'
    unfolding delete_and_emit cancel_orders_by_hash
    Move-IsSound {env} {w} (begin {now_ms} {o} {s} whole m) sound h =
        (sound, matched-IsSoundState env now_ms o w.orders s whole sound m)
    Move-IsSound (pass now_ms {o} whole m) sound h = (sound, (whole, none_left-IsPart o whole.3))
    Move-IsSound (reject e _) sound h = (sound, tt)
    Move-IsSound (confirm _) sound h = (sound, (h, h.1))
    Move-IsSound {w} (save xs e ys) sound (state, rows) =
        let (before, (row, after)) = All-split (IsSoundRow V) xs (e ∷ ys) rows in
        (
          saved-IsSoundBook e w.orders row sound,
          (state, All-append (IsSoundRow V) xs ys before after),
        )
    Move-IsSound announce sound h = (sound, h.0)
    Move-IsSound (keep xs e ys) sound h = (sound, h)
    Move-IsSound report sound h = (sound, (h.0, h.2))
    Move-IsSound {env} {w} (add now_ms {o} {r}) sound (whole, part) =
        (post_fulfilled-IsSoundBook env now_ms o r w whole part sound, tt)
    Move-IsSound (look_up _) sound h = (sound, tt)
    Move-IsSound {w} (delete {hashes = []}) sound h = (sound, tt)
    Move-IsSound {w} (delete {hashes = x ∷ hashes}) sound h = (
      subst IsSoundBook (sym (book-delete V (x ∷ hashes) w.orders))
          (remove-IsSoundBook (x ∷ hashes) (book V w.orders) sound),
      tt,
    )

    -- However requests overlap, of which those that post an order post one with a whole amount,
    -- expiration and salt, and with an amount that is not negative: if they start from a table whose
    -- orders are sound, it stays so, at each moment between two awaits. Each row that a request has
    -- still to save holds a sound order, and what it has filled lies between 0 and its amount.
    pub Steps-IsSoundSystem :
        {env : Env} {s t : System V Db} → Steps env s t → IsSoundSystem s → IsSoundSystem t
    Steps-IsSoundSystem here sound = sound
    Steps-IsSoundSystem {env} {s} (later {t} steps (pick i move)) sound =
        let (book_sound, pcs) = Steps-IsSoundSystem steps sound in
        let (book_after, pc_after) = Move-IsSound move book_sound (pcs i) in
        (book_after, update-IsSoundPc t.pc i _ pcs pc_after)
