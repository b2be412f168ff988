-- ===== src/Broker/Account/Caching.antt =====
-- How old an account summary may be that src/polara/broker/adapter.py hands out.
use polara_quant.Base.{
  ℕ, ◌-◌, ◌<◌, ◌≡◌, refl, String, Bool, true, false, Option, none, some, arith, not, inl, inr,
  Option-cases,
}
use polara_quant.Base.Effects.{
  Result, ok, err, raise_if, lift, modify, pure, ◌>>=◌, ◌>>◌, broker_disconnected,
}
use polara_quant.Decimal.{Decimal}
use polara_quant.Schemas.{AccountInfo, utc}
use polara_quant.Broker.State.{Broker, Gateway}
use polara_quant.Broker.Account.{
  account_cache_ttl, cached, fetch_account, get_account, store_account, account_info,
  get_pnl_snapshot, PnlSnapshot,
}

module _ {D : Type 0} ⦃d : Decimal D⦄ where
  -- The cached account carries the time at which it was cached.
  abbrev StampedAs : Option (ℕ × AccountInfo D) → Type 0
  StampedAs none = Unit
  StampedAs (some (at, account)) = account.timestamp ≡ utc at

  abbrev pub IsStamped : Broker D → Type 0
  IsStamped s = StampedAs s.account_cache

  -- A summary that is younger than the limit, or just fetched.
  abbrev pub IsFresh : ℕ → Bool → Result (AccountInfo D) → Type 0
  IsFresh now force_refresh (err e) = Unit
  IsFresh now true (ok account) = account.timestamp ≡ utc now
  IsFresh now false (ok account) =
      (at : ℕ) × (account.timestamp ≡ utc at) × (now - at < account_cache_ttl)

  abbrev Fetched : ℕ → Broker D → Result (AccountInfo D) × Broker D → Type 0
  Fetched now s (err e, t) = t ≡ s
  Fetched now s (ok account, t) =
      (account.timestamp ≡ utc now) × (t.account_cache ≡ some (now, account))

  fetch_account-Fetched :
      (gw : Gateway D) (now : ℕ) (s : Broker D) → Fetched now s (fetch_account gw now s)
  unfolding fetch_account
  fetch_account-Fetched gw now s = go gw.connected gw.account_summary
    where
      go :
          (connected : Bool) (summary : Result (String → Option D))
          → Fetched now s (
              (do
                raise_if (not connected) broker_disconnected
                a ← lift summary
                modify (store_account now (account_info now a))
                pure (account_info now a))
                s)
      go false summary = refl
      go true (err e) = refl
      go true (ok a) = (refl, refl)

  Fetched-IsFresh :
      (now : ℕ) (f : Bool) (s : Broker D) (m : Result (AccountInfo D) × Broker D)
      → IsStamped s
      → Fetched now s m
      → IsFresh now f m.0 × IsStamped m.1
  Fetched-IsFresh now f s (err e, t) h same = (tt, rw same h)
  Fetched-IsFresh now true s (ok account, t) h (new, stored) = (new, rw stored new)
  Fetched-IsFresh now false s (ok account, t) h (new, stored) =
      ((now, new, omega arith), rw stored new)

  cached-IsFresh :
      (now : ℕ) (f : Bool) (c : Option (ℕ × AccountInfo D)) (account : AccountInfo D)
      → StampedAs c
      → cached f now c ≡ some account
      → IsFresh now f (ok account)
  unfolding cached
  cached-IsFresh now f none account h e = cc
  cached-IsFresh now true (some (at, a)) account h e = cc
  cached-IsFresh now false (some (at, a)) account h e = (at, ground arith, ground arith)

  -- If the account in the cache carries the time of its caching, it does so after `get_account`,
  -- and an account that is returned is less than five minutes old, or of this moment if a
  -- refresh is forced.
  pub get_account-IsFresh :
      (gw : Gateway D) (now : ℕ) (force_refresh : Bool) (s : Broker D)
      → IsStamped s
      → IsFresh now force_refresh (get_account gw now force_refresh s).0
        × IsStamped (get_account gw now force_refresh s).1
  unfolding get_account
  get_account-IsFresh gw now force_refresh s h =
      elim (Option-cases (cached force_refresh now s.account_cache)) [
        | inl old ↦ rw old (
            Fetched-IsFresh now force_refresh s (fetch_account gw now s) h
              (fetch_account-Fetched gw now s))
        | inr (account, found) ↦
            rw found (cached-IsFresh now force_refresh s.account_cache account h found, h)
      ]

  -- While the cached account is less than five minutes old and no refresh is forced, it is
  -- returned with no call of the gateway, so also when the gateway is not connected.
  pub get_account_cached :
      (gw : Gateway D) (now at : ℕ) (account : AccountInfo D) (s : Broker D)
      → s.account_cache ≡ some (at, account)
      → now - at < account_cache_ttl
      → get_account gw now false s ≡ (ok account, s)
  unfolding get_account
  get_account_cached gw now at account s c young = ground arith

  abbrev pub snapshot_of : AccountInfo D → PnlSnapshot D
  snapshot_of account = record {
    net_liquidation = account.net_liquidation;
    cash = account.cash;
    unrealised_pnl = account.unrealised_pnl;
    realised_pnl = account.realised_pnl;
    snapshot_at = account.timestamp;
  }

  -- A snapshot that the gateway answers.
  pub get_pnl_snapshot_answered :
      (gw : Gateway D) (now : ℕ) (s : Broker D) (summary : String → Option D)
      → gw.connected ≡ true
      → gw.account_summary ≡ ok summary
      → get_pnl_snapshot gw now s ≡ (
        ok (snapshot_of (account_info now summary)),
        store_account now (account_info now summary) s,
      )
  unfolding get_pnl_snapshot get_account cached fetch_account
  get_pnl_snapshot_answered gw now s summary up answer = ground arith
