-- ===== src/Store/Queries/Clock/Totals.antt =====
-- What the clock adds up, slot by slot.
use token_usage.Sort.{order_by}
use token_usage.Prelude.{
  inl, inr, ◌⊎◌, ℕ, ◌≡◌, refl, ◌∙◌, ap, Bool, true, false, ◌&&◌, some, List, [], ◌∷◌, map, Text,
  text_eq, codes, ◌==◌, keep, nat_beq, arith, if◌then◌else◌, Option-cases,
}
use token_usage.Prelude.Int.{ℤ, pos, ◌+ℤ◌, sum_by, +ℤ-zero}
use token_usage.Store.Usage.{UsageDetail, single, merge}
use token_usage.Store.Prices.{Price}
use token_usage.Store.Queries.{tally, tokens_of}
use token_usage.Store.Queries.Tally.{weigh, sum_by-order_by, sum_by-scan_rows, sum_by-tally}
use token_usage.Store.Queries.Priced.{Float, Rates}
use token_usage.Store.Queries.Priced.Totals.{tokens_of-merge}
use token_usage.Store.Queries.Clock.{
  LocalTime, Zones, ClockKey, clock_key_eq, Slot, slot_eq, slot_of, dow_of, ClockRow, Cell,
  slot_before, in_window, clock_key, keyed, add_cell, clock_row, cell_of, clock_rows, no_rows,
  clock_aggregate,
}

abbrev in_slot : ℕ → ℕ → Slot → Bool
in_slot dow hour s = nat_beq s.dow dow && nat_beq s.hour hour

-- The tokens of the rows of a slot.
abbrev pub clock_tokens : {F : Type 0} → ℕ → ℕ → List (ClockRow F) → ℤ
clock_tokens {F} dow hour =
    sum_by
      (λ (r : ClockRow F). if nat_beq r.dow dow && nat_beq r.hour hour then r.tokens else pos 0)

-- The tokens of the detail rows whose local time is in a slot.
abbrev pub slot_tokens : LocalTime → ℕ → ℕ → List UsageDetail → ℤ
slot_tokens local dow hour = sum_by (λ (d : UsageDetail).
    if nat_beq (dow_of (local.day d.ts)) dow && nat_beq (local.hour d.ts) hour
    then tokens_of (single d)
    else pos 0)

sum_by-map :
    {A B : Type 0} (f : B → ℤ) (g : A → B) (xs : List A)
    → sum_by f (map g xs) ≡ sum_by (λ a. f (g a)) xs
sum_by-map f g [] = refl
sum_by-map f g (x ∷ xs) = ap (λ n. f (g x) +ℤ n) (sum_by-map f g xs)

module _ {F : Type 0} (fl : Float F) (midnight : ℕ → ℕ) (prices : List (Price (Rates F))) where
  clock_row-tokens :
      (dow hour : ℕ) (row : Slot × Cell F) (r : ClockRow F)
      → clock_row fl row ≡ some r
      → (if nat_beq r.dow dow && nat_beq r.hour hour then r.tokens else pos 0)
        ≡ weigh (in_slot dow hour) (λ (c : Cell F). c.tokens) row
  clock_row-tokens dow hour (slot, cell) r e = ground (arith, e)

  clock_rows-tokens :
      (local : LocalTime) (detail : List UsageDetail) {rows : List (ClockRow F)}
      → clock_rows fl midnight prices local detail ≡ some rows
      → (dow hour : ℕ) → clock_tokens dow hour rows ≡ slot_tokens local dow hour detail
  unfolding clock_rows
  clock_rows-tokens local detail {rows} h dow hour =
      let groups = tally (λ (k : ClockKey). k) single merge (keyed local detail) [] in
      let cells = map (cell_of fl midnight prices) groups in
      let slots = tally (λ (s : Slot). s) (λ (c : Cell F). c) (add_cell fl) cells [] in
      let test : Slot → Bool = in_slot dow hour in
      let tokens : Cell F → ℤ = λ c. c.tokens in
      sum_by-scan_rows (clock_row fl) (weigh test tokens)
        (λ (r : ClockRow F). if nat_beq r.dow dow && nat_beq r.hour hour then r.tokens else pos 0)
        (order_by slot_before slots)
        (λ (a : Slot × Cell F) (b : ClockRow F) e. clock_row-tokens dow hour a b e) h
      ∙ (sum_by-order_by (weigh test tokens) slot_before slots
          ∙ (sum_by-tally (λ (s : Slot). s) (λ (c : Cell F). c) (add_cell fl) test tokens
                (λ a b. refl) cells []
              ∙ (+ℤ-zero _
                  ∙ (sum_by-map (weigh test tokens) (cell_of fl midnight prices) groups
                      ∙ (sum_by-tally (λ (k : ClockKey). k) single merge (λ k. test (slot_of k))
                            tokens_of tokens_of-merge (keyed local detail) []
                          ∙ (+ℤ-zero _ ∙ sum_by-map _ (λ d. (clock_key local d, d)) detail))))))

  no_rows-some :
      (selected : List UsageDetail) {rows : List (ClockRow F)}
      → no_rows fl midnight prices selected ≡ some rows
      → (selected ≡ []) × (rows ≡ [])
  unfolding no_rows
  no_rows-some [] h = (refl, ground (arith, h))
  no_rows-some (d ∷ selected) h = absurd (ground (arith, h))

  -- If the clock returns, then either it selects no detail row and shows none, or its zone is known, and the
  -- tokens that it shows for a weekday and an hour are those of the selected detail rows whose time in that
  -- zone is of that weekday and hour.
  pub clock_aggregate-slots :
      (zones : Zones) (micros : ℕ → ℕ) (fault : Bool) (user tz : Text) (from to : ℕ)
      (detail : List UsageDetail) {rows : List (ClockRow F)}
      → clock_aggregate fl midnight prices zones micros fault user tz from to detail ≡ some rows
      → let selected = keep (in_window micros user from to) detail in
        ((selected ≡ []) × (rows ≡ []))
        ⊎ ((local : LocalTime) × (zones (if tz == [] then codes "UTC" else tz) ≡ some local)
            × ((dow hour : ℕ) → clock_tokens dow hour rows ≡ slot_tokens local dow hour selected))
  unfolding clock_aggregate
  clock_aggregate-slots zones micros true user tz from to detail h = absurd (ground (arith, h))
  clock_aggregate-slots zones micros false user tz from to detail h =
      let selected = keep (in_window micros user from to) detail in
      elim (Option-cases (zones (if tz == [] then codes "UTC" else tz))) [
        | inl unknown ↦ inl (no_rows-some selected (rw (clock_aggregate, unknown) at h))
        | inr (local, known) ↦
            inr (local, known, clock_rows-tokens local selected (rw (clock_aggregate, known) at h))
      ]
