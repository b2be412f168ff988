-- ===== src/MarketData/Sessions.antt =====
-- src/polara/market_data/session.py: the trading sessions of the New York Stock Exchange.
use polara_quant.Base.{
  ℕ, ◌+◌, ◌*◌, String, Bool, ◌&&◌, ◌||◌, List, [], ◌∷◌, ltb, leb, length, keep, nat_beq,
  if◌then◌else◌,
}
use polara_quant.Base.Effects.{Result, ok, err, value_error}
use polara_quant.Base.Results.{◌>>=◌}
use polara_quant.Base.Texts.{codes, first_word, rest_after, is_blank, same_word, int_of}
use polara_quant.Schemas.{Bar, second}

-- `ZoneInfo("America/New_York")`: the local date of an instant, and the instant of a local time. Dates
-- are numbered.
pub record Zone : Type 0 where
  pub date_of : ℕ → ℕ
  pub at : (date hour minute : ℕ) → ℕ

-- `sorted({...}, reverse=True)`: the dates before a day, the latest first, each one once.
abbrev pub insert_desc : ℕ → List ℕ → List ℕ
insert_desc d [] = d ∷ []
insert_desc d (e ∷ es) =
    let rest = insert_desc d es in
    if ltb e d then d ∷ e ∷ es else if nat_beq d e then e ∷ es else e ∷ rest

module _ (et : Zone) where
  abbrev pub session_open_utc : ℕ → ℕ
  session_open_utc d = et.at d 9 30

  abbrev pub session_close_utc : ℕ → ℕ
  session_close_utc d = et.at d 16 0

  abbrev pub in_session : {D : Type 0} → ℕ → Bar D → Bool
  in_session d b =
      leb (session_open_utc d) b.timestamp.instant && ltb b.timestamp.instant (session_close_utc d)

  unfoldable pub is_session_bar : {D : Type 0} → Bar D → Bool
  is_session_bar b = in_session (et.date_of b.timestamp.instant) b

  abbrev pub date_of_bar : {D : Type 0} → Bar D → ℕ
  date_of_bar b = et.date_of b.timestamp.instant

  unfoldable pub opening_range_end_utc : (date : ℕ) → (bar_size : String) → (n_bars : ℕ) → Result ℕ
  unfolding int_of
  opening_range_end_utc d bar_size n_bars =
      let text = codes bar_size in
      let unit = first_word (rest_after text) in
      let is_minutes = same_word unit (codes "mins") || same_word unit (codes "min") in
      if is_minutes && is_blank (rest_after (rest_after text))
      then (int_of (first_word text) >>= λ minutes.
          ok (session_open_utc d + minutes * n_bars * (60 * second)))
      else err value_error

  unfoldable pub get_session_bars : {D : Type 0} → List (Bar D) → ℕ → List (Bar D)
  get_session_bars bars d = keep (in_session d) bars

  unfoldable pub candidate_dates : {D : Type 0} → List (Bar D) → ℕ → List ℕ
  candidate_dates [] date = []
  candidate_dates (b ∷ bars) date =
      let rest = candidate_dates bars date in
      if ltb (date_of_bar b) date then insert_desc (date_of_bar b) rest else rest

  unfoldable pub first_session : {D : Type 0} → List (Bar D) → List ℕ → List (Bar D)
  unfolding get_session_bars
  first_session bars [] = []
  first_session bars (d ∷ ds) =
      let rest = first_session bars ds in
      if ltb 0 (length (get_session_bars bars d)) then get_session_bars bars d else rest

  unfoldable pub get_prev_session_bars : {D : Type 0} → List (Bar D) → ℕ → List (Bar D)
  unfolding candidate_dates first_session
  get_prev_session_bars bars date = first_session bars (candidate_dates bars date)
