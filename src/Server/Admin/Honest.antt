-- ===== src/Server/Admin/Honest.antt =====
-- What codex-repair prints, and what it has done.
use token_usage.Prelude.{
  ◌⊎◌, inl, inr, ℕ, ◌≡◌, ◌≢◌, text_beq, text_beq_iff, refl, Bool, true, false, ◌||◌, Option, none,
  some, List, [], Text, text_eq, codes, ◌==◌, ltb, arith, Bool-cases, Option-cases,
}
use token_usage.Store.Usage.{UsageTables}
use token_usage.Types.{UsageRecord}
use token_usage.Store.Keys.{detail_key_eq, daily_key_eq}
use token_usage.Store.Usage.{usage_stream}
use token_usage.Store.Rollup.Run.{IsSound}
use token_usage.Store.Repair.{Repaired, RepairFaults, load_stage, repair_stats, repair_codex_usage}
use token_usage.Store.Repair.Run.{
  repair_codex_usage-IsSound, repair_codex_usage-Ran, Ran-AreRepaired,
}
use token_usage.Store.Repair.Rows.{AreRepaired}
use token_usage.Watcher.Scan.{Parser, Tree, scan}
use token_usage.Server.Admin.{
  RepairRun, repair_mode, failed_run, repair_report, new_checkpoint, sessions_of, codex_repair,
}

-- the first word of the report
abbrev pub mode_of : RepairRun → Option Text
mode_of run = elim run.report [ none ↦ none | some (mode, stats) ↦ some mode ]

-- A run says that it applied the repair: then it was asked to, and the detail rows are those that the
-- repair makes. Or it does not say so: then the tables stay, unless its commit was answered with an error,
-- when the repair may have been made.
abbrev pub IsHonest :
    RepairFaults
    → Text
    → Text
    → List UsageRecord
    → Bool
    → UsageTables
    → RepairRun × UsageTables
    → Type 0
IsHonest f user_id machine_id records apply t run =
    ((apply ≡ true)
      × (mode_of run.0 ≡ some (codes "APPLIED"))
      × (run.0.fails ≡ false)
      × AreRepaired user_id machine_id (load_stage [] records) t.detail run.1.detail)
    ⊎ ((mode_of run.0 ≢ some (codes "APPLIED"))
        × ((run.1 ≡ t)
            ⊎ ((f.commit ≡ true)
                × AreRepaired user_id machine_id (load_stage [] records) t.detail run.1.detail)))

other_word : (s : Text) → s == codes "APPLIED" ≡ false → some s ≢ some (codes "APPLIED")
other_word s e = λ same. ground (arith, e, same, text_beq_iff s (codes "APPLIED"))

silent : {s : Text} → none ≢ some s
silent e = ground (arith, e)

-- A repair that does not say that it was applied is reported under another word.
repair_report-other :
    (apply : Bool) (out : Repaired)
    → out.stats.applied ≡ false
    → mode_of (repair_report apply out) ≢ some (codes "APPLIED")
unfolding repair_report repair_mode text_beq
repair_report-other apply out idle = elim (Option-cases out.error) [
  | inr (message, bad) ↦
      elim (Bool-cases (ltb 0 out.stats.parsed || ltb 0 out.stats.database_rows)) [
        | inl shown ↦ rw (bad, shown) (other_word (codes "ABORTED") refl)
        | inr hidden ↦ rw (bad, hidden) silent
      ]
  | inl good ↦ elim (Bool-cases apply) [
    | inl asked ↦ rw (good, idle, asked) (other_word (codes "NO-CHANGES") refl)
    | inr dry ↦ rw (good, idle, dry) (other_word (codes "DRY-RUN") refl)
  ]
]

repair_report-applied :
    (apply : Bool) (out : Repaired)
    → out.stats.applied ≡ true
    → out.error ≡ none
    → (mode_of (repair_report apply out) ≡ some (codes "APPLIED"))
      × ((repair_report apply out).fails ≡ false)
unfolding repair_report repair_mode
repair_report-applied apply out applied good = (rw (good, applied) refl, rw good refl)

repair_report-IsHonest :
    (f : RepairFaults) (now : ℕ) (user_id machine_id : Text) (records : List UsageRecord)
    (apply : Bool) (t : UsageTables)
    → let out = repair_codex_usage f now user_id machine_id records apply t in
      IsHonest f user_id machine_id records apply t (repair_report apply out.0, out.1)
repair_report-IsHonest f now user_id machine_id records apply t =
    let out = repair_codex_usage f now user_id machine_id records apply t in
    let stage = load_stage [] records in
    let st = repair_stats user_id machine_id stage t.detail in
    elim (repair_codex_usage-Ran now user_id machine_id f records apply t) [
      | inl (idle, same) ↦ inr (repair_report-other apply out.0 idle, inl same)
      | inr (e, inl (asked, applied, good)) ↦
          let (mode, fine) = repair_report-applied apply out.0 applied good in
          inl (asked, mode, fine, Ran-AreRepaired now user_id machine_id stage st t e)
      | inr (e, inr (lost, idle)) ↦ inr (
        repair_report-other apply out.0 idle,
        inr (lost, Ran-AreRepaired now user_id machine_id stage st t e),
      )
    ]

-- Whatever the sessions hold and whatever fails, codex-repair prints APPLIED only if it was asked to apply
-- the repair and did so, without an error: each Codex row of the user and the machine whose id stands in the
-- stage has the four counts that stand there, and all else in the detail rows is as it was. If it prints
-- anything else, or nothing, the tables are as they were, or its commit was answered with an error and had
-- taken effect. Either way sound tables stay sound.
pub codex_repair-IsHonest :
    (registry : List (Text × Parser)) (tree : Tree) (opens : Bool) (f : RepairFaults) (now : ℕ)
    (sessions_root user_id machine_id : Text) (apply : Bool) (t : UsageTables)
    → IsSound usage_stream t
    → let run = codex_repair registry tree opens f now sessions_root user_id machine_id apply t in
      IsHonest f user_id machine_id
        (scan registry tree new_checkpoint (sessions_of sessions_root)).0.usage
        apply
        t
        run
      × IsSound usage_stream run.1
unfolding codex_repair
codex_repair-IsHonest registry tree opens f now sessions_root user_id machine_id apply t sound =
    let found = scan registry tree new_checkpoint (sessions_of sessions_root) in
    let idle : IsHonest f user_id machine_id found.0.usage apply t (failed_run, t)
        × IsSound usage_stream t =
      (inr (silent, inl refl), sound) in
    elim (Bool-cases (sessions_root == [] || (user_id == [] || machine_id == []))) [
      | inl missing ↦ rw (codex_repair, missing) idle
      | inr given ↦ elim (Option-cases found.2) [
        | inr (e, bad) ↦ rw (codex_repair, given, bad) idle
        | inl good ↦ elim (Bool-cases opens) [
          | inr closed ↦ rw (codex_repair, given, good, closed) idle
          | inl opened ↦
              rw (codex_repair, given, good, opened)
                (
                  repair_report-IsHonest f now user_id machine_id found.0.usage apply t,
                  repair_codex_usage-IsSound now user_id machine_id f found.0.usage apply t sound,
                )
        ]
      ]
    ]
