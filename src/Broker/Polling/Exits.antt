-- ===== src/Broker/Polling/Exits.antt =====
-- What the polling of src/polara/broker/adapter.py does with the fill of a stop or of a profit target,
-- and with a fill that it could not record at first.
use polara_quant.Base.{
  ℕ, ◌≡◌, ◌≢◌, refl, ◌⊎◌, inl, inr, Bool, true, Option, none, some, not, ◌&&◌, List, [], ◌∷◌, arith,
  nat_beq, find_first, if◌then◌else◌, update_where, ◌∙◌, sym,
}
use polara_quant.Base.Effects.{ok, err, database}
use polara_quant.Decimal.{Decimal}
use polara_quant.Schemas.{OrderState, filled}
use polara_quant.Broker.State.{Broker, RawOrder, Order}
use polara_quant.Broker.Polling.{
  status_map, raw_status, is_filled, contains, is_order_of, is_exit_of, record_fill, set_status,
  sync_status, sync_order,
}
use polara_quant.Broker.Polling.Fills.{IsDisjoint, fill_id, find-set_status}

update_where_twice :
    {D : Type 0} ⦃d : Decimal D⦄ (i : ℕ) (rows : List (Order D))
    → update_where
        (is_order_of i)
        (λ row. record row { status = filled })
        (update_where (is_order_of i) (λ row. record row { status = filled }) rows)
      ≡ update_where (is_order_of i) (λ row. record row { status = filled }) rows
update_where_twice i [] = refl
update_where_twice i (row ∷ rows) = ground (arith, update_where_twice i rows)

module _ {D : Type 0} ⦃d : Decimal D⦄ (total : List D → D) (locked : ℕ → Bool) where
  sync_order-eq-sync_status :
      (now : ℕ) (o : RawOrder D) (s : Broker D) (i : ℕ)
      → fill_id o ≡ some i
      → sync_order total locked now o s ≡ sync_status total locked i now filled o s
  unfolding sync_order
  sync_order-eq-sync_status now o s i e = go o.order_id (status_map (raw_status o.status)) e
    where
      go :
          (id : Option ℕ) (st : Option OrderState)
          → (elim id [
            | none ↦ none
            | some ib_id ↦ elim st [
              | none ↦ none
              | some status ↦ if not (nat_beq ib_id 0) && is_filled status then some ib_id else none
            ]
          ])
            ≡ some i
          → (elim id [
            | none ↦ s
            | some ib_id ↦ elim st [
              | none ↦ s
              | some status ↦
                  if nat_beq ib_id 0 then s else sync_status total locked ib_id now status o s
            ]
          ])
            ≡ sync_status total locked i now filled o s
      go none st h = cc
      go (some id) none h = cc
      go (some id) (some filled) h = ground arith
      go (some id) (some _) h = ground arith

  unlisted_fill :
      (i now : ℕ) (o : RawOrder D) (s : Broker D)
      → find_first (is_order_of i) s.orders ≡ none
      → record_fill total locked i now o s ≡ (ok tt, s)
  unfolding record_fill
  unlisted_fill i now o s none_listed = ground arith

  sync_unlisted :
      (i now : ℕ) (o : RawOrder D) (s : Broker D)
      → s.has_trade_service ≡ true
      → record_fill total locked i now o (set_status i filled s) ≡ (ok tt, set_status i filled s)
      → ((sync_status total locked i now filled o s).trades ≡ s.trades)
        × (contains i (sync_status total locked i now filled o s).known_filled ≡ true)
  unfolding sync_status
  sync_unlisted i now o s service e = ground arith

  -- The fill of a stop or of a profit target closes no trade: if there is a trade service and no
  -- order has the number of a child of a bracket, the poll that reports the fill leaves the
  -- trades as they are, and remembers the fill, so that it is not looked at again.
  pub exit_fill_ignored :
      (now : ℕ) (o : RawOrder D) (s : Broker D) (i : ℕ)
      → IsDisjoint s
      → fill_id o ≡ some i
      → find_first (is_exit_of i) s.bracket_orders ≢ none
      → s.has_trade_service ≡ true
      → ((sync_order total locked now o s).trades ≡ s.trades)
        × (contains i (sync_order total locked now o s).known_filled ≡ true)
  exit_fill_ignored now o s i apart fill exit_ service =
      let u = set_status i filled s in
      let unlisted : find_first (is_order_of i) s.orders ≡ none = elim (apart i) [
        | inl h ↦ h
        | inr h ↦ absurd (exit_ h)
      ] in
      let ignored =
        unlisted_fill i now o u (find-set_status total locked i i filled s.orders unlisted) in
      rw (sync_order-eq-sync_status now o s i fill) (sync_unlisted i now o s service ignored)

  -- What `_record_fill` does for an order whose session fails: nothing, or it had nothing to do.
  refused_fill :
      (free : ℕ → Bool) (i now later : ℕ) (o : RawOrder D) (u : Broker D)
      → locked i ≡ true
      → (record_fill total locked i now o u ≡ (err database, u))
        ⊎ ((record_fill total locked i now o u ≡ (ok tt, u))
            × (record_fill total free i later o u ≡ (ok tt, u)))
  unfolding record_fill
  refused_fill free i now later o u lock = ground arith

  sync_failed :
      (i now : ℕ) (o : RawOrder D) (s : Broker D)
      → record_fill total locked i now o (set_status i filled s)
        ≡ (err database, set_status i filled s)
      → sync_status total locked i now filled o s ≡ set_status i filled s
  unfolding sync_status
  sync_failed i now o s e = ground arith

  sync_again :
      (i now : ℕ) (o : RawOrder D) (s : Broker D)
      → sync_status total locked i now filled o (set_status i filled s)
        ≡ sync_status total locked i now filled o s
  unfolding sync_status
  sync_again i now o s = rw (update_where_twice i s.orders)

  sync_nothing :
      (i now : ℕ) (o : RawOrder D) (s : Broker D)
      → record_fill total locked i now o (set_status i filled s) ≡ (ok tt, set_status i filled s)
      → ((sync_status total locked i now filled o s).trades ≡ s.trades)
        × ((contains i (sync_status total locked i now filled o s).known_filled ≡ true)
            ⊎ (sync_status total locked i now filled o s ≡ set_status i filled s))
  unfolding sync_status
  sync_nothing i now o s e = ground arith

  sync_known :
      (i now : ℕ) (o : RawOrder D) (s : Broker D)
      → contains i s.known_filled ≡ true
      → (sync_status total locked i now filled o s).trades ≡ s.trades
  unfolding sync_status
  sync_known i now o s e = ground arith

module _ {D : Type 0} ⦃d : Decimal D⦄ (total : List D → D) (locked free : ℕ → Bool) where
  sync_retried :
      (i now later : ℕ) (o : RawOrder D) (s : Broker D)
      → locked i ≡ true
      → (sync_status total free i later filled o (sync_status total locked i now filled o s)).trades
        ≡ (sync_status total free i later filled o s).trades
  sync_retried i now later o s lock =
      elim (refused_fill total locked free i now later o (set_status i filled s) lock) [
        | inl failed ↦
            rw (sync_failed total locked i now o s failed, sync_again total free i later o s)
        | inr (nothing, still) ↦
            let (same, seen) = sync_nothing total locked i now o s nothing in
            elim seen [
              | inl known ↦
                  let t = sync_status total locked i now filled o s in
                  sync_known total free i later o t known
                  ∙ same
                  ∙ sym (sync_nothing total free i later o s still).0
              | inr unchanged ↦ rw (unchanged, sync_again total free i later o s)
            ]
      ]

  -- A fill that the session of the trade service refuses at one poll is recorded by the next
  -- poll that reports it, as if there had been no failure: the trades are those of that poll
  -- alone.
  pub failed_fill_retried :
      (now later : ℕ) (o : RawOrder D) (s : Broker D) (i : ℕ)
      → fill_id o ≡ some i
      → locked i ≡ true
      → (sync_order total free later o (sync_order total locked now o s)).trades
        ≡ (sync_order total free later o s).trades
  failed_fill_retried now later o s i fill lock =
      rw
        (
          sync_order-eq-sync_status total locked now o s i fill,
          sync_order-eq-sync_status total free later o (sync_status total locked i now filled o s) i
              fill,
          sync_order-eq-sync_status total free later o s i fill,
        )
        (sync_retried i now later o s lock)
