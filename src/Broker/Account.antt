-- ===== src/Broker/Account.antt =====
-- Account and positions of src/polara/broker/adapter.py: the cached account summary, the positions
-- and the snapshots of profit and loss.
pub mod Caching
use polara_quant.Base.{
  ℕ, ◌-◌, ◌*◌, String, Bool, true, false, Option, none, some, not, ◌&&◌, List, [], ◌∷◌, ◌++◌,
  string_eq, ltb, if◌then◌else◌,
}
use polara_quant.Base.Dict.{Dict, insert}
use polara_quant.Base.Effects.{Action, Result, ok, err, pure, lift, gets, modify, ◌>>=◌, ◌>>◌}
use polara_quant.Decimal.{Decimal, zero_d}
use polara_quant.Schemas.{AccountInfo, Position, PnlSnapshot, DateTime, utc, second}
use polara_quant.Broker.State.{Broker, Gateway, RawPosition, require_connected}

-- `_ACCOUNT_CACHE_TTL_SECONDS`
abbrev pub account_cache_ttl : ℕ
account_cache_ttl = 300 * second

module _ {D : Type 0} ⦃d : Decimal D⦄ where
  -- The cached account, if it may be used. (The negative age after a clock went back, here 0, is
  -- below the limit too.)
  unfoldable pub cached : Bool → ℕ → Option (ℕ × AccountInfo D) → Option (AccountInfo D)
  cached force_refresh now none = none
  cached force_refresh now (some (at, account)) =
      if not force_refresh && ltb (now - at) account_cache_ttl then some account else none

  -- `_d(key)`
  abbrev pub amount : (String → Option D) → String → D
  amount summary key = elim (summary key) [ none ↦ zero_d | some a ↦ a ]

  abbrev pub account_info : ℕ → (String → Option D) → AccountInfo D
  account_info now summary = record {
    net_liquidation = amount summary "netliquidation";
    cash = amount summary "totalcashvalue";
    unrealised_pnl = amount summary "unrealizedpnl";
    realised_pnl = amount summary "realizedpnl";
    currency = "USD";
    timestamp = utc now;
  }

  abbrev pub store_account : ℕ → AccountInfo D → Broker D → Broker D
  store_account now account s = record s { account_cache = some (now, account) }

  unfoldable pub fetch_account : Gateway D → ℕ → Action (Broker D) (AccountInfo D)
  unfolding require_connected
  fetch_account gw now = do
    require_connected gw
    summary ← lift gw.account_summary
    modify (store_account now (account_info now summary))
    pure (account_info now summary)

  unfoldable pub get_account :
      Gateway D → (now : ℕ) → (force_refresh : Bool) → Action (Broker D) (AccountInfo D)
  unfolding cached fetch_account
  get_account gw now force_refresh = do
    found ← gets (λ s. cached force_refresh now s.account_cache)
    elim found [ some account ↦ pure account | none ↦ fetch_account gw now ]

  abbrev pub or_zero : Option D → D
  or_zero none = zero_d
  or_zero (some x) = x

  abbrev pub position_symbol : RawPosition D → String
  position_symbol p = elim p.contract_desc [
    | some s ↦ s
    | none ↦ elim p.ticker [ some s ↦ s | none ↦ "" ]
  ]

  abbrev pub to_position : ℕ → RawPosition D → Position D
  to_position now p = record {
    symbol = position_symbol p;
    quantity = or_zero p.position;
    avg_cost = or_zero p.avg_cost;
    unrealised_pnl = or_zero p.unreal_pnl;
    updated_at = utc now;
  }

  -- The loop of `get_positions`, which passes over positions of quantity zero.
  unfoldable pub held_positions : ℕ → List (RawPosition D) → List (Position D)
  held_positions now [] = []
  held_positions now (p ∷ ps) =
      if d.eq (or_zero p.position) zero_d
      then held_positions now ps
      else to_position now p ∷ held_positions now ps

  -- `_UPSERT_POSITION` for each position: the table has one row for a symbol.
  unfoldable pub upsert_positions :
      List (Position D) → Dict String (Position D) → Dict String (Position D)
  upsert_positions [] table = table
  upsert_positions (p ∷ ps) table = upsert_positions ps (insert p.symbol p table)

  -- `with_db` says whether a session was given.
  unfoldable pub get_positions :
      Gateway D → (now : ℕ) → (with_db : Bool) → Action (Broker D) (List (Position D))
  unfolding require_connected held_positions
  get_positions gw now with_db = do
    require_connected gw
    rows ← lift gw.positions
    modify (λ s.
        if with_db
        then record s { positions = upsert_positions (held_positions now rows) s.positions }
        else s)
    pure (held_positions now rows)

  unfoldable pub get_pnl_snapshot : Gateway D → (now : ℕ) → Action (Broker D) (PnlSnapshot D)
  unfolding get_account
  get_pnl_snapshot gw now = do
    account ← get_account gw now true
    pure (record {
      net_liquidation = account.net_liquidation;
      cash = account.cash;
      unrealised_pnl = account.unrealised_pnl;
      realised_pnl = account.realised_pnl;
      snapshot_at = account.timestamp;
    })
