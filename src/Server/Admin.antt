-- ===== src/Server/Admin.antt =====
-- cmd/server/admin.go: the administration commands. What cobra reads from the command line, the format of a
-- time, and tabwriter, which aligns the cells of a row, are outside the model; the store is opened or not.
pub mod Honest
use token_usage.Prelude.{
  ℕ, ◌≡◌, Bool, true, false, ◌&&◌, ◌||◌, Option, none, some, List, [], ◌∷◌, ◌++◌, map, Text,
  text_eq, codes, ◌==◌, ltb, nat_beq, if◌then◌else◌,
}
use token_usage.Store.Usage.{UsageTables}
use token_usage.Store.Repair.{CodexRepairStats, Repaired, RepairFaults, repair_codex_usage}
use token_usage.Watcher.Run.{Checkpoint}
use token_usage.Watcher.Scan.{Source, Parser, Tree, ScanError, scan}
use token_usage.Server.Auth.{User, ApiKey, Accounts, Shown, create_user, create_api_key, revoke}
use token_usage.Server.Auth.Lists.{UserRow, ApiKeyRow, list_users, list_api_keys}

-- What a run of codex-repair shows: the first word of its report with the statistics behind it, whether
-- it asks for --apply, and whether it returns an error.
pub record RepairRun : Type 0 where
  pub report : Option (Text × CodexRepairStats)
  pub asks_apply : Bool
  pub fails : Bool

-- the mode of `printCodexRepairStats`
unfoldable pub repair_mode : CodexRepairStats → Bool → Bool → Text
repair_mode s apply_requested true = codes "ABORTED"
repair_mode s apply_requested false =
    if s.applied
    then codes "APPLIED"
    else if apply_requested
    then codes "NO-CHANGES"
    else codes "DRY-RUN"

abbrev pub failed_run : RepairRun
failed_run = record { report = none; asks_apply = false; fails = true }

-- What the command prints and returns behind RepairCodexUsage.
unfoldable pub repair_report : Bool → Repaired → RepairRun
unfolding repair_mode
repair_report apply out = elim out.error [
  | some message ↦ record {
    report =
        if ltb 0 out.stats.parsed || ltb 0 out.stats.database_rows
        then some (repair_mode out.stats apply true, out.stats)
        else none;
    asks_apply = false;
    fails = true;
  }
  | none ↦ record {
    report = some (repair_mode out.stats apply false, out.stats);
    asks_apply = if apply then false else true;
    fails = false;
  }
]

abbrev pub new_checkpoint : Checkpoint
new_checkpoint = record { files = []; saved = [] }

abbrev pub sessions_of : Text → List Source
sessions_of root = record { tool = codes "codex"; root = root } ∷ []

-- RunE of `newCodexRepairCmd`; `opens` says whether the store could be opened
unfoldable pub codex_repair :
    List (Text × Parser)
    → Tree
    → Bool
    → RepairFaults
    → ℕ
    → Text
    → Text
    → Text
    → Bool
    → UsageTables
    → RepairRun × UsageTables
unfolding scan repair_codex_usage repair_report
codex_repair registry tree opens f now sessions_root user_id machine_id apply t =
    let found = scan registry tree new_checkpoint (sessions_of sessions_root) in
    let out = repair_codex_usage f now user_id machine_id found.0.usage apply t in
    if sessions_root == [] || (user_id == [] || machine_id == [])
    then (failed_run, t)
    else elim found.2 [
      | some e ↦ (failed_run, t)
      | none ↦ if opens then (repair_report apply out.0, out.1) else (failed_run, t)
    ]

-- RunE of `newUserAddCmd`: `none` is an error
unfoldable user_add : Bool → Bool → ℕ → Text → Text → List User → Option (List User)
unfolding create_user
user_add opens fault now id email users =
    if opens then create_user fault now id email users else none

-- RunE of `newKeyCreateCmd`: the key that is printed
unfoldable key_create :
    (Text → List ℕ)
    → Bool
    → Bool
    → ℕ
    → Option (List ℕ)
    → Text
    → Text
    → Accounts
    → Option Shown × Accounts
unfolding create_api_key
key_create sha256 opens fault now random id name a =
    if opens then create_api_key sha256 fault now random id name a else (none, a)

-- RunE of `newKeyRevokeCmd`
unfoldable key_revoke : Bool → Bool → ℕ → Text → List ApiKey → Bool × List ApiKey
unfolding revoke
key_revoke opens fault now prefix keys =
    if opens then revoke fault now prefix keys else (false, keys)

-- `dash`
abbrev dash : Text → Text
dash s = if s == [] then codes "-" else s

module _ (format : ℕ → Text) where
  -- `fmtTime`; 0 is the zero time
  abbrev fmt_time : ℕ → Text
  fmt_time t = if nat_beq t 0 then codes "-" else format t

  -- `fmtPtrTime`
  abbrev fmt_ptr_time : Option ℕ → Text
  fmt_ptr_time none = codes "-"
  fmt_ptr_time (some t) = fmt_time t

  -- the cells of a row of user-list; %v of a bool
  abbrev user_cells : UserRow → List Text
  user_cells u =
      u.user_id
      ∷ dash u.email
      ∷ fmt_time u.created_at
      ∷ (if u.disabled then codes "true" else codes "false")
      ∷ []

  -- the cells of a row of key-list
  abbrev key_cells : ApiKeyRow → List Text
  key_cells k =
      k.prefix
      ∷ k.user_id
      ∷ dash k.name
      ∷ fmt_time k.created_at
      ∷ fmt_ptr_time k.last_used_at
      ∷ (if k.revoked then codes "revoked" else codes "active")
      ∷ []

  -- a title above rows, or a line that says that there are none
  abbrev table : Text → List Text → List (List Text) → List (List Text)
  table nobody title [] = (nobody ∷ []) ∷ []
  table nobody title (row ∷ rows) = title ∷ row ∷ rows

  -- RunE of `newUserListCmd`: `none` is an error
  unfoldable user_list : Bool → (User → User → Bool) → Bool → List User → Option (List (List Text))
  unfolding list_users
  user_list opens before fault users =
      if opens
      then elim (list_users before fault users) [
        | none ↦ none
        | some found ↦ some (
            table (codes "(no users)")
              (codes "USER_ID" ∷ codes "EMAIL" ∷ codes "CREATED" ∷ codes "DISABLED" ∷ [])
              (map user_cells found))
      ]
      else none

  -- RunE of `newKeyListCmd`
  unfoldable key_list :
      Bool → (ApiKey → ApiKey → Bool) → Bool → Text → List ApiKey → Option (List (List Text))
  unfolding list_api_keys
  key_list opens before fault user keys =
      if opens
      then elim (list_api_keys before fault user keys) [
        | none ↦ none
        | some found ↦ some (
            table (codes "(no keys)")
              (codes "PREFIX"
                ∷ codes "USER"
                ∷ codes "NAME"
                ∷ codes "CREATED"
                ∷ codes "LAST_USED"
                ∷ codes "STATUS"
                ∷ [])
              (map key_cells found))
      ]
      else none
