-- ===== src/Trades/Summary.antt =====
-- The daily summaries that src/polara/dashboard/trade_service.py keeps beside the trades.
use polara_quant.Base.{
  ℕ, ◌≡◌, ◌≢◌, refl, inl, inr, String, true, false, Option, none, some, List, [], ◌∷◌, ◌++◌, arith,
  ◌==◌, nat_eq, length, find_first, keep, All, All-map, if◌then◌else◌, Bool-cases, Option-cases,
  nat_beq_iff, ap,
}
use polara_quant.Base.Effects.{Result, ok, err}
use polara_quant.Base.Dict.{Dict, lookup, insert, lookup-insert, lookup-insert_self}
use polara_quant.Decimal.{Decimal}
use polara_quant.Schemas.{OrderSide, date_of}
use polara_quant.Trades.{
  Trade, TradeTables, DaySummary, is_open_entry, is_closed_on, summarise, with_navs, new_trade,
  ensured, trade_pnl, open_trade, upsert_daily_summary, close_trade, rollback, ensure_daily_summary,
  update_daily_nav, record_nav,
}
use polara_quant.Trades.Closing.{closed_on-set_closed, close_trade-none, close_trade-some, updated}

module _ {D : Type 0} ⦃d : Decimal D⦄ where
  -- The number of trades that the dashboard shows for a day.
  abbrev pub shown : Option (DaySummary D) → ℕ
  shown none = 0
  shown (some s) = s.trade_count

  -- Every day's count is the number of closed trades with its date.
  abbrev pub IsCurrent : TradeTables D → Type 0
  IsCurrent t =
      (day : ℕ) → shown (lookup day t.daily_summary) ≡ length (keep (is_closed_on day) t.trades)

  closed-append_open :
      (day : ℕ) (r : Trade D) (ts : List (Trade D))
      → is_closed_on day r ≡ false
      → keep (is_closed_on day) (ts ++ (r ∷ [])) ≡ keep (is_closed_on day) ts
  closed-append_open day r [] h = ground arith
  closed-append_open day r (t ∷ ts) h = ground (arith, closed-append_open day r ts h)

  -- Opening a trade changes no summary: if every count is right, it stays so.
  pub open_trade-IsCurrent :
      (id : ℕ) (strategy_id symbol : String) (side : OrderSide) (quantity price commission : D)
      (entry_at : ℕ) (t : TradeTables D)
      → IsCurrent t
      → IsCurrent (open_trade id strategy_id symbol side quantity price commission entry_at t).1
  unfolding open_trade
  open_trade-IsCurrent id strategy_id symbol side quantity price commission entry_at t c day =
      let row = new_trade id strategy_id symbol side quantity price commission entry_at in
      rw (closed-append_open day row t.trades (ground arith)) (c day)

  shown-insert :
      (key j : ℕ) (s : DaySummary D) (m : Dict ℕ (DaySummary D))
      → s.trade_count ≡ shown (lookup key m)
      → shown (lookup j (insert key s m)) ≡ shown (lookup j m)
  shown-insert key j s m h = ground (arith, lookup-insert key j s m)

  ensure-IsCurrent :
      (key : ℕ) (nav : D) (at : ℕ) (t : TradeTables D)
      → IsCurrent t
      → IsCurrent (ensure_daily_summary key nav at t).1
  unfolding ensure_daily_summary
  ensure-IsCurrent key nav at t c day =
      let new = ensured nav at (lookup key t.daily_summary) in
      rw (shown-insert key day new t.daily_summary (ground arith)) (c day)

  update_nav-IsCurrent :
      (key : ℕ) (nav : D) (at : ℕ) (t : TradeTables D)
      → IsCurrent t
      → IsCurrent (update_daily_nav key nav at t).1
  unfolding update_daily_nav
  update_nav-IsCurrent key nav at t c day = grind (arith, c day, shown-insert)

  -- Recording a net asset value changes no count: if every count is right, it stays so.
  pub record_nav-IsCurrent :
      (nav : D) (as_of : ℕ) (t : TradeTables D) → IsCurrent t → IsCurrent (record_nav nav as_of t).1
  unfolding record_nav
  record_nav-IsCurrent nav as_of t c =
      update_nav-IsCurrent (date_of as_of) nav as_of
        (ensure_daily_summary (date_of as_of) nav as_of t).1
        (ensure-IsCurrent (date_of as_of) nav as_of t c)

  update_daily_nav_found :
      (key : ℕ) (nav : D) (updated_at : ℕ) (t : TradeTables D) (old : DaySummary D)
      → lookup key t.daily_summary ≡ some old
      → (update_daily_nav key nav updated_at t).1.daily_summary
        ≡ insert key (record old { end_nav = some nav; updated_at = updated_at }) t.daily_summary
  unfolding update_daily_nav
  update_daily_nav_found key nav updated_at t old found = ground arith

  -- After `record_nav` the summary of its date has the value as its last one, and as its first one if
  -- it had none; it keeps its other numbers, and a new summary counts no trade. Those of the other dates
  -- are as before.
  pub record_nav_summary :
      (nav : D) (as_of : ℕ) (t : TradeTables D) (day : ℕ)
      → lookup day (record_nav nav as_of t).1.daily_summary ≡ (
          if date_of as_of == day
          then some (record (ensured nav as_of (lookup day t.daily_summary)) {
            end_nav = some nav;
            updated_at = as_of;
          })
          else lookup day t.daily_summary)
  unfolding record_nav ensure_daily_summary
  record_nav_summary nav as_of t day =
      let today = date_of as_of in
      let row = ensured nav as_of (lookup today t.daily_summary) in
      let kept = insert today row t.daily_summary in
      let set =
        update_daily_nav_found today nav as_of (record t { daily_summary = kept }) row
          (lookup-insert_self today row t.daily_summary) in
      elim (Bool-cases (today == day)) [
        | inl same ↦
            rw
              (
                set,
                lookup-insert today day (record row { end_nav = some nav; updated_at = as_of })
                    kept,
                same,
              )
              (ap
                (λ j. some (record (ensured nav as_of (lookup j t.daily_summary)) {
                  end_nav = some nav;
                  updated_at = as_of;
                }))
                ((nat_beq_iff today day).0 same))
        | inr other ↦
            rw
              (
                set,
                lookup-insert today day (record row { end_nav = some nav; updated_at = as_of })
                    kept,
                other,
                lookup-insert today day row t.daily_summary,
                other,
              )
              refl
      ]

module _ {D : Type 0} ⦃d : Decimal D⦄ (total : List D → D) where
  -- The summaries after `_UPSERT_DAILY_SUMMARY`, where it succeeds.
  upsert_summary :
      (key now : ℕ) (t : TradeTables D)
      → (upsert_daily_summary total key now t).0 ≡ ok tt
      → (j : ℕ)
      → lookup j (upsert_daily_summary total key now t).1.daily_summary ≡ (
          if key == j
          then some (
              with_navs
                (summarise total now (keep (is_closed_on j) t.trades))
                (lookup j t.daily_summary))
          else lookup j t.daily_summary)
  unfolding upsert_daily_summary
  upsert_summary key now t h j = grind (arith, lookup-insert)

  upsert-trades :
      (key now : ℕ) (t : TradeTables D) → (upsert_daily_summary total key now t).1.trades ≡ t.trades
  unfolding upsert_daily_summary
  upsert-trades key now t = ground arith

  close_trade-eq-upsert :
      (id exit_id : ℕ) (price commission : D) (exit_at now : ℕ) (row : Trade D) (t : TradeTables D)
      → find_first (is_open_entry id) t.trades ≡ some row
      → close_trade total id exit_id price commission exit_at now t
        ≡ rollback t (
            upsert_daily_summary total (date_of exit_at) now (record t {
              trades = updated total id exit_id price commission exit_at row t.trades;
            }))
  unfolding close_trade
  close_trade-eq-upsert id exit_id price commission exit_at now row t e = rw (e, close_trade)

  rollback-ok :
      (t : TradeTables D) (m : Result (Unit {0}) × TradeTables D)
      → (rollback t m).0 ≡ ok tt
      → (m.0 ≡ ok tt) × (rollback t m ≡ m)
  rollback-ok t (ok tt', after) h = (h, refl)
  rollback-ok t (err e, after) h = cc

  -- After a close that found an open trade and succeeded, the summary of the day of the exit is that
  -- of all closed trades with that date, this one among them if it has the date; its net asset values
  -- and the summaries of the other days are as before.
  pub close_trade_summary :
      (id exit_id : ℕ) (price commission : D) (exit_at now : ℕ) (t : TradeTables D)
      → find_first (is_open_entry id) t.trades ≢ none
      → (close_trade total id exit_id price commission exit_at now t).0 ≡ ok tt
      → let t' = (close_trade total id exit_id price commission exit_at now t).1 in
        (day : ℕ)
        → lookup day t'.daily_summary ≡ (
            if date_of exit_at == day
            then some (
                with_navs
                  (summarise total now (keep (is_closed_on day) t'.trades))
                  (lookup day t.daily_summary))
            else lookup day t.daily_summary)
  close_trade_summary id exit_id price commission exit_at now t found done day =
      elim (Option-cases (find_first (is_open_entry id) t.trades)) [
        | inl absent ↦ absurd (found absent)
        | inr (row, e) ↦
            let trades = updated total id exit_id price commission exit_at row t.trades in
            let m =
              upsert_daily_summary total (date_of exit_at) now (record t { trades = trades }) in
            let same = close_trade-eq-upsert id exit_id price commission exit_at now row t e in
            let (passed, kept) = rollback-ok t m (rw same at done) in
            rw (same, kept, upsert-trades)
              (upsert_summary (date_of exit_at) now (record t { trades = trades }) passed day)
      ]

  shown_summary :
      (now : ℕ) (rows : List (Trade D)) (old : Option (DaySummary D))
      → shown (some (with_navs (summarise total now rows) old)) ≡ length rows
  unfolding summarise
  shown_summary now rows none = refl
  shown_summary now rows (some s) = refl

  -- If every count is right and the open trades of the entry carry the date of the exit, every
  -- count is right after the close, whatever its outcome.
  pub close_trade-IsCurrent :
      (id exit_id : ℕ) (price commission : D) (exit_at now : ℕ) (t : TradeTables D)
      → All (λ r. is_open_entry id r ≡ true → r.trade_date ≡ date_of exit_at) t.trades
      → IsCurrent t
      → IsCurrent (close_trade total id exit_id price commission exit_at now t).1
  close_trade-IsCurrent id exit_id price commission exit_at now t same c day =
      elim (Option-cases (find_first (is_open_entry id) t.trades)) [
        | inl absent ↦
            rw (close_trade-none total id exit_id price commission exit_at now t absent) (c day)
        | inr (row, e) ↦
            elim (close_trade-some total id exit_id price commission exit_at now row t e) [
              | inl (_, failed) ↦ rw failed (c day)
              | inr (done, trades) ↦
                  let new =
                    close_trade_summary id exit_id price commission exit_at now t (λ gone. cc) done
                      day in
                  elim (Bool-cases (date_of exit_at == day)) [
                    | inl today ↦ rw (new, today) (shown_summary now _ _)
                    | inr later ↦
                        let paid = d.add row.commission commission in
                        let pnl = trade_pnl row price paid in
                        let kept =
                          closed_on-set_closed day id exit_id price pnl paid exit_at t.trades
                            (All-map (λ r h opened. differs (h opened) later) t.trades same) in
                        rw (new, later, trades, kept) (c day)
                  ]
            ]
      ]
    where
      differs : {a : ℕ} → a ≡ date_of exit_at → (date_of exit_at == day) ≡ false → a ≢ day
      differs p q = ground arith
