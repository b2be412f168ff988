-- ===== src/Dashboard/Queries.antt =====
-- What the queries of src/polara/dashboard/dashboard_service.py count and list.
use polara_quant.Base.{
  ℕ, ◌+◌, ◌≤◌, ◌≡◌, refl, ◌∙◌, String, List, [], ◌∷◌, arith, map, length, length-keep-le, keep, All,
  string_eq,
}
use polara_quant.Base.Dict.{Dict}
use polara_quant.Base.Pages.{IsPage, page-IsPage}
use polara_quant.Decimal.{Decimal}
use polara_quant.Trades.{Trade, TradeTables}
use polara_quant.Dashboard.{
  Real, Performance, Filter, matches, by_entry, trades_filtered, is_closed, add_member, group_by,
  pnls, strategy_row, insert_group, order_groups, performance,
}

module _ {D : Type 0} where
  -- The trades with the filter, the latest entries first, and at most `limit` of them: none is missing
  -- but earlier ones, none is repeated.
  pub trades_filtered-IsPage :
      (f : Filter) (limit : ℕ) (tables : TradeTables D)
      → IsPage by_entry (matches f) limit tables.trades (trades_filtered f limit tables)
  unfolding trades_filtered
  trades_filtered-IsPage f limit tables = page-IsPage by_entry (matches f) limit tables.trades

  abbrev members : Dict String (List (Trade D)) → ℕ
  members [] = 0
  members ((name, trades) ∷ groups) = length trades + members groups

  members-add_member :
      (k : String) (t : Trade D) (groups : Dict String (List (Trade D)))
      → members (add_member k t groups) ≡ members groups + 1
  members-add_member k t [] = omega arith
  members-add_member k t ((j, ts) ∷ groups) = ground (arith, members-add_member k t groups)

  members-group_by :
      (name : Trade D → String) (ts : List (Trade D)) → members (group_by name ts) ≡ length ts
  unfolding group_by
  members-group_by name [] = refl
  members-group_by name (t ∷ ts) =
      omega (arith, members-add_member (name t) t (group_by name ts), members-group_by name ts)

-- The trades of all rows, and a row that has as many wins as trades or fewer.
abbrev pub trades_of : {F : Type 0} → List (Performance F) → ℕ
trades_of [] = 0
trades_of (row ∷ rows) = row.trade_count + trades_of rows

module _ {D F : Type 0} ⦃d : Decimal D⦄ (f : Real F) (real : D → F) where
  members-insert_group :
      (g : String × List (Trade D)) (groups : Dict String (List (Trade D)))
      → members (insert_group f real g groups) ≡ members (g ∷ groups)
  members-insert_group g [] = refl
  members-insert_group g (h ∷ groups) = ground (arith, members-insert_group g groups)

  members-order_groups :
      (groups : Dict String (List (Trade D)))
      → members (order_groups f real groups) ≡ members groups
  unfolding order_groups
  members-order_groups [] = refl
  members-order_groups (g ∷ groups) =
      omega
        (arith, members-insert_group g (order_groups f real groups), members-order_groups groups)

  trades_of-map :
      (groups : Dict String (List (Trade D)))
      → trades_of (map (strategy_row f real) groups) ≡ members groups
  trades_of-map [] = refl
  trades_of-map (g ∷ groups) = omega (arith, trades_of-map groups)

  length-pnls-le : (ts : List (Trade D)) → length (pnls f real ts) ≤ length ts
  length-pnls-le [] = omega arith
  length-pnls-le (t ∷ ts) = ground (arith, length-pnls-le ts)

  wins-le :
      (groups : Dict String (List (Trade D)))
      → All (λ row. row.win_count ≤ row.trade_count) (map (strategy_row f real) groups)
  wins-le [] = tt
  wins-le ((name, ts) ∷ groups) = (
    omega (arith, length-keep-le (λ x. f.lt (f.lit 0 0) x) (pnls f real ts), length-pnls-le ts),
    wins-le groups,
  )

  -- The rows of a performance, by strategy or by symbol, count each closed trade once, and no row has
  -- more wins than trades.
  pub performance_counts :
      (name : Trade D → String) (tables : TradeTables D)
      → (trades_of (performance f real name tables) ≡ length (keep is_closed tables.trades))
        × All (λ row. row.win_count ≤ row.trade_count) (performance f real name tables)
  unfolding performance
  performance_counts name tables =
      let groups = group_by name (keep is_closed tables.trades) in
      (
        trades_of-map (order_groups f real groups)
            ∙ (members-order_groups groups ∙ members-group_by name (keep is_closed tables.trades)),
        wins-le (order_groups f real groups),
      )
