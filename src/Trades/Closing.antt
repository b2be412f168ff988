-- ===== src/Trades/Closing.antt =====
-- The life of a trade under src/polara/dashboard/trade_service.py: opened, closed once, and then with
-- the profit that its prices give.
use polara_quant.Base.{
  ℕ, ◌≡◌, ◌≢◌, refl, inl, inr, true, none, some, List, [], ◌∷◌, arith, nat_eq, find_first, keep,
  All, Option-cases, ◌⊎◌,
}
use polara_quant.Base.Effects.{ok, err, database}
use polara_quant.Decimal.{Decimal}
use polara_quant.Schemas.{date_of}
use polara_quant.Trades.{
  Trade, TradeState, is_open, is_closed, TradeTables, is_open_entry, is_closed_on, trade_pnl,
  set_closed, upsert_daily_summary, close_trade,
}

module _ {D : Type 0} ⦃d : Decimal D⦄ where
  -- An open trade has no exit; a closed one has the profit of its own prices and commissions.
  abbrev SettledAs : TradeState → Trade D → Type 0
  SettledAs is_open r = (r.exit_price ≡ none) × (r.realised_pnl ≡ none)
  SettledAs is_closed r =
      (x : D) × (r.exit_price ≡ some x) × (r.realised_pnl ≡ some (trade_pnl r x r.commission))

  abbrev pub IsSettled : Trade D → Type 0
  IsSettled r = SettledAs r.status r

  set_closed-closes :
      (id exit_id : ℕ) (price pnl commission : D) (exit_at : ℕ) (ts : List (Trade D))
      → find_first (is_open_entry id) (set_closed id exit_id price pnl commission exit_at ts) ≡ none
  unfolding set_closed
  set_closed-closes id exit_id price pnl commission exit_at [] = refl
  set_closed-closes id exit_id price pnl commission exit_at (t ∷ ts) =
      ground (arith, set_closed-closes id exit_id price pnl commission exit_at ts)

  -- The closed rows of a day grow by those rows of the entry that carry its date.
  pub closed_on-set_closed :
      (day id exit_id : ℕ) (price pnl commission : D) (exit_at : ℕ) (ts : List (Trade D))
      → All (λ r. is_open_entry id r ≡ true → r.trade_date ≢ day) ts
      → keep (is_closed_on day) (set_closed id exit_id price pnl commission exit_at ts)
        ≡ keep (is_closed_on day) ts
  unfolding set_closed
  closed_on-set_closed day id exit_id price pnl commission exit_at [] a = refl
  closed_on-set_closed day id exit_id price pnl commission exit_at (t ∷ ts) (h, hs) =
      let rest = closed_on-set_closed day id exit_id price pnl commission exit_at ts hs in
      ground (arith, h, rest)

module _ {D : Type 0} ⦃d : Decimal D⦄ (total : List D → D) where
  pub close_trade-none :
      (id exit_id : ℕ) (price commission : D) (exit_at now : ℕ) (t : TradeTables D)
      → find_first (is_open_entry id) t.trades ≡ none
      → close_trade total id exit_id price commission exit_at now t ≡ (ok tt, t)
  unfolding close_trade
  close_trade-none id exit_id price commission exit_at now t e = ground arith

  -- The trades after the UPDATE of a close that has found `row`.
  abbrev pub updated : ℕ → ℕ → D → D → ℕ → Trade D → List (Trade D) → List (Trade D)
  updated id exit_id price commission exit_at row =
      let paid = d.add row.commission commission in
      set_closed id exit_id price (trade_pnl row price paid) paid exit_at

  -- A close that has found an open trade is refused, if the day has no closed trade, or updates.
  pub close_trade-some :
      (id exit_id : ℕ) (price commission : D) (exit_at now : ℕ) (row : Trade D) (t : TradeTables D)
      → find_first (is_open_entry id) t.trades ≡ some row
      → let after = close_trade total id exit_id price commission exit_at now t in
        let trades = updated id exit_id price commission exit_at row t.trades in
        ((keep (is_closed_on (date_of exit_at)) trades ≡ []) × (after ≡ (err database, t)))
        ⊎ ((after.0 ≡ ok tt) × (after.1.trades ≡ trades))
  unfolding close_trade upsert_daily_summary
  close_trade-some id exit_id price commission exit_at now row t e = ground arith

  close_trade_refused :
      (id exit_id : ℕ) (price commission : D) (exit_at now : ℕ) (row : Trade D) (t : TradeTables D)
      → find_first (is_open_entry id) t.trades ≡ some row
      → keep
          (is_closed_on (date_of exit_at))
          (updated id exit_id price commission exit_at row t.trades)
        ≡ []
      → close_trade total id exit_id price commission exit_at now t ≡ (err database, t)
  unfolding close_trade upsert_daily_summary
  close_trade_refused id exit_id price commission exit_at now row t e none_closed = ground arith

  -- A close that succeeds leaves no open trade for the entry, so a second close of the same
  -- entry, whatever its other arguments, succeeds and changes nothing.
  pub close_trade_twice :
      (id exit_id : ℕ) (price commission : D) (exit_at now : ℕ) (exit_id' : ℕ)
      (price' commission' : D) (exit_at' now' : ℕ) (t t' : TradeTables D)
      → close_trade total id exit_id price commission exit_at now t ≡ (ok tt, t')
      → close_trade total id exit_id' price' commission' exit_at' now' t' ≡ (ok tt, t')
  close_trade_twice id exit_id price commission exit_at now exit_id' price' commission' exit_at'
        now' t t' e =
      close_trade-none id exit_id' price' commission' exit_at' now' t'
        (elim (Option-cases (find_first (is_open_entry id) t.trades)) [
          | inl absent ↦
              ground (arith, close_trade-none id exit_id price commission exit_at now t absent)
          | inr (row, found) ↦
              let paid = d.add row.commission commission in
              let closes =
                set_closed-closes id exit_id price (trade_pnl row price paid) paid exit_at
                  t.trades in
              elim (close_trade-some id exit_id price commission exit_at now row t found) [
                | inl (_, failed) ↦ cc
                | inr (_, done) ↦ ground arith
              ]
        ])

  -- A close that finds an open trade for the entry, on another day than the open trades of the
  -- entry carry, when no trade of that other day is closed, is refused by the database, and
  -- nothing changes: the trade stays open.
  pub close_trade_overnight :
      (id exit_id : ℕ) (price commission : D) (exit_at now : ℕ) (t : TradeTables D)
      → find_first (is_open_entry id) t.trades ≢ none
      → All (λ r. is_open_entry id r ≡ true → r.trade_date ≢ date_of exit_at) t.trades
      → keep (is_closed_on (date_of exit_at)) t.trades ≡ []
      → close_trade total id exit_id price commission exit_at now t ≡ (err database, t)
  close_trade_overnight id exit_id price commission exit_at now t found dates idle_day =
      elim (Option-cases (find_first (is_open_entry id) t.trades)) [
        | inl absent ↦ absurd (found absent)
        | inr (row, e) ↦
            let paid = d.add row.commission commission in
            let day = date_of exit_at in
            let pnl = trade_pnl row price paid in
            let same = closed_on-set_closed day id exit_id price pnl paid exit_at t.trades dates in
            close_trade_refused id exit_id price commission exit_at now row t e (rw same idle_day)
      ]
