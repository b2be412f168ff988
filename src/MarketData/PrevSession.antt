-- ===== src/MarketData/PrevSession.antt =====
-- The session before a day is the latest one that has bars.
use polara_quant.Base.{
  ℕ, ◌≤◌, ◌<◌, ◌≡◌, ◌⊎◌, inl, inr, refl, sym, Bool, true, false, List, [], ◌∷◌, ◌&&◌, ltb, length,
  All, All-map, Bool-cases, ltb→lt, nat_beq, ap, ◌∙◌, arith,
}
use mathlib.Core.Path.{subst}
use polara_quant.Schemas.{Bar}
use polara_quant.MarketData.Sessions.{
  Zone, date_of_bar, get_session_bars, insert_desc, candidate_dates, first_session,
  get_prev_session_bars,
}

abbrev Has : ℕ → List ℕ → Type 0
Has d [] = ⊥
Has d (e ∷ es) = (d ≡ e) ⊎ Has d es

-- Strictly descending, and below a bound.
abbrev Desc : ℕ → List ℕ → Type 0
Desc bound [] = Unit
Desc bound (e ∷ es) = (e < bound) × Desc e es

Desc-weaken : (a b : ℕ) (ds : List ℕ) → a ≤ b → Desc a ds → Desc b ds
Desc-weaken a b [] h s = tt
Desc-weaken a b (e ∷ es) h (l, s) = (omega arith, s)

insert_desc-Desc :
    (bound d : ℕ) (ds : List ℕ) → d < bound → Desc bound ds → Desc bound (insert_desc d ds)
insert_desc-Desc bound d [] h s = (h, tt)
insert_desc-Desc bound d (e ∷ es) h (l, s) = elim (Bool-cases (ltb e d)) [
  | inl lt ↦ rw lt (h, (ltb→lt e d lt, s))
  | inr ge ↦ rw ge (elim (Bool-cases (nat_beq d e)) [
    | inl eq ↦ rw eq (l, s)
    | inr ne ↦ rw ne (l, insert_desc-Desc e d es (ground arith) s)
  ])
]

Has-insert_desc : (d : ℕ) (ds : List ℕ) → Has d (insert_desc d ds)
Has-insert_desc d [] = inl refl
Has-insert_desc d (e ∷ es) = elim (Bool-cases (ltb e d)) [
  | inl lt ↦ rw lt (inl refl)
  | inr ge ↦ rw ge (elim (Bool-cases (nat_beq d e)) [
    | inl eq ↦ rw eq (inl (ground arith))
    | inr ne ↦ rw ne (inr (Has-insert_desc d es))
  ])
]

Has-insert_desc_old : (x d : ℕ) (ds : List ℕ) → Has x ds → Has x (insert_desc d ds)
Has-insert_desc_old x d [] h = elim h [ ]
Has-insert_desc_old x d (e ∷ es) h = elim (Bool-cases (ltb e d)) [
  | inl lt ↦ rw lt (inr h)
  | inr ge ↦ rw ge (elim (Bool-cases (nat_beq d e)) [
    | inl eq ↦ rw eq h
    | inr ne ↦ rw ne (elim h [ inl q ↦ inl q | inr r ↦ inr (Has-insert_desc_old x d es r) ])
  ])
]

module _ {D : Type 0} (et : Zone) (date : ℕ) where
  candidate_dates-early :
      (b : Bar D) (bars : List (Bar D))
      → ltb (date_of_bar et b) date ≡ true
      → candidate_dates et (b ∷ bars) date
        ≡ insert_desc (date_of_bar et b) (candidate_dates et bars date)
  unfolding candidate_dates
  candidate_dates-early b bars lt = rw lt refl

  candidate_dates-late :
      (b : Bar D) (bars : List (Bar D))
      → ltb (date_of_bar et b) date ≡ false
      → candidate_dates et (b ∷ bars) date ≡ candidate_dates et bars date
  unfolding candidate_dates
  candidate_dates-late b bars ge = rw ge refl

  candidate_dates-Desc : (bars : List (Bar D)) → Desc date (candidate_dates et bars date)
  unfolding candidate_dates
  candidate_dates-Desc [] = tt
  candidate_dates-Desc (b ∷ bars) = elim (Bool-cases (ltb (date_of_bar et b) date)) [
    | inl lt ↦
        rw (candidate_dates-early b bars lt)
          (insert_desc-Desc date (date_of_bar et b) _ (ltb→lt _ _ lt) (candidate_dates-Desc bars))
    | inr ge ↦ rw (candidate_dates-late b bars ge) (candidate_dates-Desc bars)
  ]

  -- The date of a bar is a candidate, or too late.
  abbrev Covered : List ℕ → Bar D → Type 0
  Covered ds b = (ltb (date_of_bar et b) date ≡ false) ⊎ Has (date_of_bar et b) ds

  Covered-insert_desc :
      (d : ℕ) (ds : List ℕ) (b : Bar D) → Covered ds b → Covered (insert_desc d ds) b
  Covered-insert_desc d ds b (inl late) = inl late
  Covered-insert_desc d ds b (inr h) = inr (Has-insert_desc_old _ d ds h)

  candidate_dates-Covered :
      (bars : List (Bar D)) → All (Covered (candidate_dates et bars date)) bars
  candidate_dates-Covered [] = tt
  candidate_dates-Covered (b ∷ bars) = elim (Bool-cases (ltb (date_of_bar et b) date)) [
    | inl lt ↦
        subst (λ ds. All (Covered ds) (b ∷ bars)) (sym (candidate_dates-early b bars lt))
          (
            inr (Has-insert_desc (date_of_bar et b) (candidate_dates et bars date)),
            All-map (Covered-insert_desc (date_of_bar et b) (candidate_dates et bars date)) bars
                (candidate_dates-Covered bars),
          )
    | inr ge ↦
        subst (λ ds. All (Covered ds) (b ∷ bars)) (sym (candidate_dates-late b bars ge))
          (inl ge, candidate_dates-Covered bars)
  ]

module _ {D : Type 0} (et : Zone) (bars : List (Bar D)) where
  abbrev bars_on : ℕ → ℕ
  bars_on d = length (get_session_bars et bars d)

  -- What a search through the dates finds.
  data First (ds : List ℕ) : List (Bar D) → Type 0 where
    nothing : ((e : ℕ) → Has e ds → bars_on e ≡ 0) → First ds []
    found :
        (d : ℕ)
        → Has d ds
        → 0 < bars_on d
        → ((e : ℕ) → Has e ds → d < e → bars_on e ≡ 0)
        → First ds (get_session_bars et bars d)

  Desc-Has : (bound x : ℕ) (ds : List ℕ) → Desc bound ds → Has x ds → x < bound
  Desc-Has bound x [] s h = elim h [ ]
  Desc-Has bound x (e ∷ es) (l, s) (inl q) = omega arith
  Desc-Has bound x (e ∷ es) (l, s) (inr h) = omega (arith, Desc-Has e x es s h)

  First-skip :
      (d : ℕ) (ds : List ℕ) (r : List (Bar D)) → bars_on d ≡ 0 → First ds r → First (d ∷ ds) r
  First-skip d ds _ z (nothing none) =
      nothing (λ e h. elim h [ inl q ↦ ap bars_on q ∙ z | inr k ↦ none e k ])
  First-skip d ds _ z (found x has some later) =
      found x (inr has) some (λ e h lt. elim h [ inl q ↦ ap bars_on q ∙ z | inr k ↦ later e k lt ])

  first_session-First :
      (bound : ℕ) (ds : List ℕ) → Desc bound ds → First ds (first_session et bars ds)
  unfolding first_session
  first_session-First bound [] s = nothing (λ e h. elim h [ ])
  first_session-First bound (d ∷ ds) (l, s) = elim (Bool-cases (ltb 0 (bars_on d))) [
    | inl some ↦ rw some (
        found d (inl refl) (ltb→lt 0 _ some) (λ e h lt. elim h [
          | inl q ↦ absurd (omega arith)
          | inr k ↦ absurd (omega (arith, Desc-Has d e ds s k))
        ]))
    | inr none ↦ rw none (First-skip d ds _ (ground arith) (first_session-First d ds s))
  ]

  module _ (date : ℕ) where
    -- There is a session on the day of a bar, after one day and before another.
    abbrev pub has_session_before : Bar D → Bool
    has_session_before b = ltb (date_of_bar et b) date && ltb 0 (bars_on (date_of_bar et b))

    abbrev pub has_session_between : ℕ → Bar D → Bool
    has_session_between d b = ltb d (date_of_bar et b) && has_session_before b

    pub data IsPrevSession : List (Bar D) → Type 0 where
      no_session : All (λ b. has_session_before b ≡ false) bars → IsPrevSession []
      latest :
          (d : ℕ)
          → d < date
          → 0 < bars_on d
          → All (λ b. has_session_between d b ≡ false) bars
          → IsPrevSession (get_session_bars et bars d)

    First-IsPrevSession :
        (ds : List ℕ) (r : List (Bar D))
        → Desc date ds
        → All (Covered et date ds) bars
        → First ds r
        → IsPrevSession r
    First-IsPrevSession ds _ s covered (nothing none) = no_session (
        All-map
          (λ b c. elim c [
            | inl late ↦ rw late refl
            | inr h ↦ ground (arith, none (date_of_bar et b) h)
          ])
          bars covered)
    First-IsPrevSession ds _ s covered (found d has some later) =
        latest d (Desc-Has date d ds s has) some (
          All-map
            (λ b c. elim c [
              | inl late ↦ ground (arith, late)
              | inr h ↦ ground (arith, ltb→lt d (date_of_bar et b), later (date_of_bar et b) h)
            ])
            bars covered)

    -- The bars found are a whole session before the date, with bars in it, and no bar's day between the
    -- two has a session; or no bar's day before the date has one, and there are none.
    pub get_prev_session_bars-IsPrevSession : IsPrevSession (get_prev_session_bars et bars date)
    unfolding get_prev_session_bars
    get_prev_session_bars-IsPrevSession =
        First-IsPrevSession (candidate_dates et bars date) _ (candidate_dates-Desc et date bars)
          (candidate_dates-Covered et date bars)
          (first_session-First date (candidate_dates et bars date)
            (candidate_dates-Desc et date bars))
