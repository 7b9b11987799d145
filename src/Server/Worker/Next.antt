-- ===== src/Server/Worker/Next.antt =====
-- When the next deep rebuild is due.
use token_usage.Prelude.{
  ℕ, suc, ◌*◌, ◌≤◌, ◌<◌, ◌≡◌, ap, ◌⊎◌, inl, inr, ltb, ltb→lt, arith, Bool-cases,
}
use mathlib.Core.Path.{subst}
use token_usage.Server.Worker.{Zone, next_local_hour, hour_nanos}

-- An hour that the clocks of a zone show on every day, in the order of the days.
pub record Shows (z : Zone) (hour : ℕ) : Type 0 where
  pub day : (d : ℕ) → z.day_of (z.instant d (hour * hour_nanos)) ≡ d
  pub clock : (d : ℕ) → z.clock_of (z.instant d (hour * hour_nanos)) ≡ hour * hour_nanos
  pub order : (s t : ℕ) → z.day_of s < z.day_of t → s < t

module _ (z : Zone) (hour : ℕ) (s : Shows z hour) where
  abbrev at : ℕ → ℕ
  at d = z.instant d (hour * hour_nanos)

  at-lt : (d e : ℕ) → d < e → at d < at e
  at-lt d e h = s.order (at d) (at e) (omega (arith, s.day d, s.day e))

  at-le : (d e : ℕ) → d ≤ e → at d ≤ at e
  at-le d e h = elim (le_cases d e h) [
    | inl l ↦ omega (arith, at-lt d e l)
    | inr same ↦ let eq : at d ≡ at e = ap at same in omega (arith, eq)
  ]
    where
      le_cases : (m n : ℕ) → m ≤ n → (m < n) ⊎ (m ≡ n)
      le_cases m n l = elim (Bool-cases (ltb m n)) [
        | inl k ↦ inl (ltb→lt m n k)
        | inr k ↦ inr (ground (arith, k))
      ]

  -- an instant that is later than now is not of an earlier day
  day-le : (now d : ℕ) → now < at d → z.day_of now ≤ d
  day-le now d h = elim (Bool-cases (ltb d (z.day_of now))) [
    | inr k ↦ ground (arith, k)
    | inl k ↦
        let earlier = s.order (at d) now (omega (arith, ltb→lt d (z.day_of now) k, s.day d)) in
        absurd (omega (arith, earlier))
  ]

  -- The next deep rebuild is after now, at that hour of today or of tomorrow, and the hour does not come in
  -- between, if the clocks of the zone show the hour on every day and the days follow one another.
  pub next_local_hour-next :
      (now : ℕ)
      → let next = next_local_hour z hour now in
        (now < next)
        × (z.clock_of next ≡ hour * hour_nanos)
        × ((d : ℕ) → now < z.instant d (hour * hour_nanos) → next ≤ z.instant d (hour * hour_nanos))
  unfolding next_local_hour
  next_local_hour-next now =
      let today = z.day_of now in
      elim (Bool-cases (ltb now (at today))) [
        | inl later ↦
            rw (next_local_hour, later)
              (ltb→lt now (at today) later, s.clock today, λ d h. at-le today d (day-le now d h))
        | inr past ↦
            rw (next_local_hour, past, s.day today, s.clock today)
              (
                s.order now (at (suc today)) (omega (arith, s.day (suc today))),
                s.clock (suc today),
                λ d h. at-le (suc today) d (elim (Bool-cases (ltb today d)) [
                  | inl k ↦ ltb→lt today d k
                  | inr k ↦
                      let same : d ≡ today = ground (arith, k, day-le now d h) in
                      let here : now < at today = subst (λ x. now < at x) same h in
                      absurd (ground (arith, past, here))
                ]),
              )
      ]
