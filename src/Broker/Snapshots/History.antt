-- ===== src/Broker/Snapshots/History.antt =====
-- What the queries of src/polara/broker/adapter.py list, and what one snapshot leaves behind.
use polara_quant.Base.{
  String, ℕ, ◌≡◌, refl, Bool, true, false, Option, some, [], ◌∷◌, ◌++◌, arith, length, keep, nat_eq,
  String,
}
use polara_quant.Base.Dict.{lookup}
use polara_quant.Base.Effects.{ok}
use polara_quant.Decimal.{Decimal}
use polara_quant.Schemas.{PnlSnapshot, date_of, utc}
use polara_quant.Trades.{ensured}
use polara_quant.Broker.State.{Broker, Gateway}
use polara_quant.Broker.Account.{amount, account_info, get_pnl_snapshot}
use polara_quant.Broker.Account.Caching.{get_pnl_snapshot_answered, snapshot_of}
use polara_quant.Trades.Summary.{record_nav_summary}
use polara_quant.Base.Sorting.{IsDescending, order_desc-IsDescending, length-keep-order_desc}
use polara_quant.Broker.Snapshots.{list_pnl_history, snapshot_tick, get_pnl_snapshot, snapshot_nav}

module _ {D : Type 0} ⦃d : Decimal D⦄ where
  -- The history lists the snapshots newest first, and every test holds of as many of its entries as of
  -- the stored ones: none is lost, added or repeated.
  pub list_pnl_history-IsDescending :
      (s : Broker D)
      → IsDescending (λ p. p.snapshot_at.instant) (list_pnl_history s)
        × ((p : PnlSnapshot D → Bool)
            → length (keep p (list_pnl_history s)) ≡ length (keep p s.account_snapshots))
  unfolding list_pnl_history
  list_pnl_history-IsDescending s = (
    order_desc-IsDescending (λ p. p.snapshot_at.instant) s.account_snapshots,
    λ p. length-keep-order_desc (λ q. q.snapshot_at.instant) p s.account_snapshots,
  )

  -- While the gateway is connected and answers, and no session fails, one turn of the loop stores one
  -- snapshot, of the net liquidation that the gateway gives and of this moment, and makes that value the
  -- last one in the summary of today.
  pub snapshot_tick-records :
      (gw : Gateway D) (now : ℕ) (s : Broker D) (summary : String → Option D)
      → gw.connected ≡ true
      → gw.account_summary ≡ ok summary
      → s.has_trade_service ≡ true
      → let t = snapshot_tick gw now false false s in
        let nav = amount summary "netliquidation" in
        ((p : PnlSnapshot D) × (t.account_snapshots ≡ s.account_snapshots ++ (p ∷ []))
          × (p.net_liquidation ≡ nav)
          × (p.snapshot_at ≡ utc now))
        × (lookup (date_of now) t.trades.daily_summary
            ≡ some (record (ensured nav now (lookup (date_of now) s.trades.daily_summary)) {
              end_nav = some nav;
              updated_at = now;
            }))
  unfolding snapshot_tick snapshot_nav get_pnl_snapshot
  snapshot_tick-records gw now s summary up answer service =
      rw (up, get_pnl_snapshot_answered gw now s summary up answer, service)
        (
          (snapshot_of (account_info now summary), refl, refl, refl),
          ground (
            arith,
            record_nav_summary (amount summary "netliquidation") now s.trades (date_of now),
          ),
        )
