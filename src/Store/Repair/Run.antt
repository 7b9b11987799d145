-- ===== src/Store/Repair/Run.antt =====
-- `RepairCodexUsage` on every branch.
use token_usage.Prelude.{
  inl, inr, ◌⊎◌, ℕ, ◌≡◌, refl, none, Bool, true, false, not, ◌||◌, some, List, [], Text, text_eq,
  ◌==◌, map, arith, nat_beq, Bool-cases, Option-cases,
}
use token_usage.Table.{IsUnique}
use token_usage.Store.Usage.Rebuild.Keyed.{rebuild_daily_tx-IsUnique}
use token_usage.Types.{UsageRecord}
use token_usage.Store.Keys.{detail_key_eq, daily_key_eq}
use token_usage.Store.Rollup.Run.{IsSound}
use token_usage.Store.Usage.{UsageTables, usage_stream}
use token_usage.Store.Usage.Rebuild.{
  rebuild_daily_tx, rebuild_daily_tx-inv, sums_of-rebuild_daily_tx,
}
use token_usage.Store.Repair.{
  StageRow, CodexRepairStats, Repaired, RepairFaults, load_stage, update_row, repair_stats,
  stats_fit, validate_codex_repair, nanos, apply_codex_repair, finish_repair, repair_codex_usage,
}
use token_usage.Store.Repair.Rows.{AreRepaired, update_row-AreRepaired}
use token_usage.Store.Repair.Laws.{rollup-repair, changed-update_row, HasUniqueIds-update_row}

module _ (now : ℕ) (user_id machine_id : Text) where
  apply_codex_repair-some :
      (stage : List StageRow) (st : CodexRepairStats) (t : UsageTables) {t' : UsageTables}
      → apply_codex_repair now user_id machine_id stage st t ≡ some t'
      → (n : ℕ) × (rebuild_daily_tx now
            (nanos st.from)
            (nanos st.to)
            (record t { detail = map (update_row user_id machine_id stage) t.detail })
          ≡ some (n, t'))
  unfolding apply_codex_repair
  apply_codex_repair-some stage st t h =
      elim (Option-cases (
        rebuild_daily_tx now (nanos st.from) (nanos st.to)
          (record t { detail = map (update_row user_id machine_id stage) t.detail }))) [
            | inl e ↦ ground (arith, e, h)
            | inr ((n, u), e) ↦ (n, ground (arith, e, h))
          ]

  apply_codex_repair-detail :
      (stage : List StageRow) (st : CodexRepairStats) (t : UsageTables) {t' : UsageTables}
      → apply_codex_repair now user_id machine_id stage st t ≡ some t'
      → t'.detail ≡ map (update_row user_id machine_id stage) t.detail
  apply_codex_repair-detail stage st t {t'} h =
      let (n, e) = apply_codex_repair-some stage st t h in
      (rebuild_daily_tx-inv now (nanos st.from) (nanos st.to) n
        (record t { detail = map (update_row user_id machine_id stage) t.detail }) t' e).0

  apply_codex_repair-IsSound :
      (stage : List StageRow) (t : UsageTables) {t' : UsageTables}
      → IsSound usage_stream t
      → apply_codex_repair now user_id machine_id stage
          (repair_stats user_id machine_id stage t.detail)
          t
        ≡ some t'
      → IsSound usage_stream t'
  apply_codex_repair-IsSound stage t {t'} h e =
      let st = repair_stats user_id machine_id stage t.detail in
      let updated : UsageTables = record t {
        detail = map (update_row user_id machine_id stage) t.detail;
      } in
      let (n, ran) = apply_codex_repair-some stage st t e in
      let detail = apply_codex_repair-detail stage st t e in
      record {
        consistent = record {
          at_key = λ k. ground (
            arith,
            detail,
            h.consistent.at_key k,
            sums_of-rebuild_daily_tx now (nanos st.from) (nanos st.to) n updated t' k ran,
            rollup-repair user_id machine_id stage t.detail k,
          );
        };
        unique = rw detail (HasUniqueIds-update_row user_id machine_id stage t.detail h.unique);
      }

  -- A run either changes nothing and does not say that it did, or is the two statements: it was asked to
  -- apply them and says so, or its commit was answered with an error.
  abbrev pub Ran :
      RepairFaults → Bool → List StageRow → UsageTables → Repaired × UsageTables → Type 0
  Ran f apply stage t o =
      ((o.0.stats.applied ≡ false) × (o.1 ≡ t))
      ⊎ ((apply_codex_repair now user_id machine_id stage
              (repair_stats user_id machine_id stage t.detail) t
            ≡ some o.1)
          × (((apply ≡ true) × (o.0.stats.applied ≡ true) × (o.0.error ≡ none))
              ⊎ ((f.commit ≡ true) × (o.0.stats.applied ≡ false))))

  pub Ran-AreRepaired :
      (stage : List StageRow) (st : CodexRepairStats) (t : UsageTables) {t' : UsageTables}
      → apply_codex_repair now user_id machine_id stage st t ≡ some t'
      → AreRepaired user_id machine_id stage t.detail t'.detail
  Ran-AreRepaired stage st t e =
      rw (apply_codex_repair-detail stage st t e)
        (update_row-AreRepaired user_id machine_id stage t.detail)

  finish_repair-Ran :
      (f : RepairFaults) (stage : List StageRow) (apply : Bool) (t : UsageTables)
      → Ran f apply stage t (
          finish_repair f now user_id machine_id stage apply
            (repair_stats user_id machine_id stage t.detail)
            t)
  unfolding finish_repair repair_stats
  finish_repair-Ran f stage false t = inl (refl, refl)
  finish_repair-Ran f stage true t =
      let st = repair_stats user_id machine_id stage t.detail in
      elim (Option-cases (validate_codex_repair st)) [
        | inr (message, e) ↦ inl (ground (arith, e), ground (arith, e))
        | inl valid ↦ elim (Bool-cases (nat_beq st.changed 0)) [
          | inl none_changed ↦
              inl (ground (arith, valid, none_changed), ground (arith, valid, none_changed))
          | inr some_changed ↦
              elim (Option-cases (apply_codex_repair now user_id machine_id stage st t)) [
                | inl e ↦
                    inl (
                      ground (arith, valid, some_changed, e),
                      ground (arith, valid, some_changed, e),
                    )
                | inr (t', e) ↦ elim (Bool-cases f.update) [
                  | inl fails ↦ inl (rw (finish_repair, valid, some_changed, e, fails) (refl, refl))
                  | inr updates ↦ elim (Bool-cases f.commit) [
                    | inr works ↦ inr (
                        rw (finish_repair, valid, some_changed, e, updates, works)
                          (refl, inl (refl, refl, refl)))
                    | inl lost ↦ elim (Bool-cases f.committed) [
                      | inl kept ↦ inr (
                          rw (finish_repair, valid, some_changed, e, updates, lost, kept)
                            (refl, inr (refl, refl)))
                      | inr undone ↦ inl (
                          rw (finish_repair, valid, some_changed, e, updates, lost, undone)
                            (refl, refl))
                    ]
                  ]
                ]
              ]
        ]
      ]

  pub repair_codex_usage-Ran :
      (f : RepairFaults) (records : List UsageRecord) (apply : Bool) (t : UsageTables)
      → Ran f apply
          (load_stage [] records)
          t
          (repair_codex_usage f now user_id machine_id records apply t)
  unfolding repair_codex_usage
  repair_codex_usage-Ran f records apply t =
      let stage = load_stage [] records in
      let st = repair_stats user_id machine_id stage t.detail in
      elim (Bool-cases (user_id == [] || machine_id == [])) [
        | inl empty ↦ rw (repair_codex_usage, empty) (inl (refl, refl))
        | inr named ↦ elim (Bool-cases (f.staging || not (stats_fit st))) [
          | inl fails ↦ rw (repair_codex_usage, named, fails) (inl (refl, refl))
          | inr works ↦ rw (repair_codex_usage, named, works) (finish_repair-Ran f stage apply t)
        ]
      ]

  -- Whatever comes of a repair, the daily table keeps saying what the detail rows sum up to, and no two
  -- detail rows have one (message_id, request_id).
  pub repair_codex_usage-IsSound :
      (f : RepairFaults) (records : List UsageRecord) (apply : Bool) (t : UsageTables)
      → IsSound usage_stream t
      → IsSound usage_stream (repair_codex_usage f now user_id machine_id records apply t).1
  repair_codex_usage-IsSound f records apply t h = elim (repair_codex_usage-Ran f records apply t) [
    | inl (unapplied, same) ↦ rw same h
    | inr (e, said) ↦ apply_codex_repair-IsSound (load_stage [] records) t h e
  ]

  pub repair_codex_usage-IsUnique :
      (f : RepairFaults) (records : List UsageRecord) (apply : Bool) (t : UsageTables)
      → IsUnique t.daily
      → IsUnique (repair_codex_usage f now user_id machine_id records apply t).1.daily
  repair_codex_usage-IsUnique f records apply t h =
      elim (repair_codex_usage-Ran f records apply t) [
        | inl (unapplied, same) ↦ rw same h
        | inr (e, said) ↦
            let stage = load_stage [] records in
            let st = repair_stats user_id machine_id stage t.detail in
            let (n, ran) = apply_codex_repair-some stage st t e in
            rebuild_daily_tx-IsUnique now (nanos st.from) (nanos st.to) n _ _ h ran
      ]

  finish_repair-settled :
      (f : RepairFaults) (stage : List StageRow) (apply : Bool) (st : CodexRepairStats)
      (t : UsageTables)
      → st.changed ≡ 0
      → (finish_repair f now user_id machine_id stage apply st t).1 ≡ t
  unfolding finish_repair
  finish_repair-settled f stage false st t h = refl
  finish_repair-settled f stage true st t h = elim (Option-cases (validate_codex_repair st)) [
    | inl valid ↦ rw (finish_repair, valid, h) refl
    | inr (message, e) ↦ rw (finish_repair, e) refl
  ]

  repair_codex_usage-settled :
      (f : RepairFaults) (records : List UsageRecord) (apply : Bool) (t : UsageTables)
      → (repair_stats user_id machine_id (load_stage [] records) t.detail).changed ≡ 0
      → (repair_codex_usage f now user_id machine_id records apply t).1 ≡ t
  unfolding repair_codex_usage
  repair_codex_usage-settled f records apply t h =
      let stage = load_stage [] records in
      ground (
        arith,
        finish_repair-settled f stage apply (repair_stats user_id machine_id stage t.detail) t h,
      )

module _ (now now' : ℕ) (user_id machine_id : Text) where
  -- An applied repair gives each Codex row of the user and the machine whose id stands in the stage the four
  -- counts that stand there, and leaves all else in the detail rows as it was; the same repair at any later
  -- time, whatever fails in it and whether it is to apply or not, then changes nothing.
  pub repair_codex_usage_idem :
      (f f' : RepairFaults) (records : List UsageRecord) (apply apply' : Bool) (t : UsageTables)
      → (repair_codex_usage f now user_id machine_id records apply t).0.stats.applied ≡ true
      → AreRepaired user_id machine_id
          (load_stage [] records)
          t.detail
          (repair_codex_usage f now user_id machine_id records apply t).1.detail
        × ((repair_codex_usage f' now' user_id machine_id records apply'
              (repair_codex_usage f now user_id machine_id records apply t).1).1
            ≡ (repair_codex_usage f now user_id machine_id records apply t).1)
  repair_codex_usage_idem f f' records apply apply' t h =
      elim (repair_codex_usage-Ran now user_id machine_id f records apply t) [
        | inl (unapplied, same) ↦ absurd (ground (arith, h, unapplied))
        | inr (e, said) ↦
            let stage = load_stage [] records in
            let st = repair_stats user_id machine_id stage t.detail in
            (
              Ran-AreRepaired now user_id machine_id stage st t e,
              repair_codex_usage-settled now' user_id machine_id f' records apply' _ (
                  rw (apply_codex_repair-detail now user_id machine_id stage st t e)
                    (changed-update_row user_id machine_id stage t.detail)),
            )
      ]
