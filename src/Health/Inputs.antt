-- ===== src/Health/Inputs.antt =====
-- `HealthInputs` of health/report.py. A count or an age of -1 was not measured.
use imprint.Base.{String, Bool, true, false, ℤ}

pub data DatabaseState : Type 0 where
  absent present verified invalid : DatabaseState

pub data MigrationState : Type 0 where
  not_checked current invalid : MigrationState

pub data CheckMode : Type 0 where
  shallow deep : CheckMode

pub data PermissionsState : Type 0 where
  not_checked safe unsafe : PermissionsState

pub data LatchState : Type 0 where
  not_checked valid invalid : LatchState

pub data BackupState : Type 0 where
  never_created present_unverified verified invalid : BackupState

pub data CompilerState : Type 0 where
  absent held invalid : CompilerState

pub record HealthInputs : Type 0 where
  pub compiler_count : ℤ
  pub database_state : DatabaseState
  pub migration_state : MigrationState
  pub check_mode : CheckMode
  pub config_ok : Bool
  pub hook_parity_ok : Bool
  pub spool_depth : ℤ
  pub oldest_spool_age_seconds : ℤ
  pub pending_spool_depth : ℤ
  pub oldest_pending_spool_age_seconds : ℤ
  pub acknowledged_retained_spool_depth : ℤ
  pub spool_stale_after_seconds : ℤ
  pub quarantine_count : ℤ
  pub permissions_state : PermissionsState
  pub unsafe_permission_count : ℤ
  pub selected_bytes : ℤ
  pub retrieval_omitted_count : ℤ
  pub retrieval_budget_bytes : ℤ
  pub higher_budget_explicit : Bool
  pub latch_state : LatchState
  pub projection_snapshot_present : Bool
  pub last_compile_age_seconds : ℤ
  pub last_retrieval_age_seconds : ℤ
  pub disk_free_bytes : ℤ
  pub stale_lock_count : ℤ
  pub abandoned_temp_count : ℤ
  pub backup_state : BackupState
  pub verified_backup_count : ℤ
  pub invalid_backup_count : ℤ
  pub compiler_state : CompilerState

-- the texts of the states
abbrev pub database_name : DatabaseState → String
database_name DatabaseState.absent = "absent"
database_name DatabaseState.present = "present"
database_name DatabaseState.verified = "verified"
database_name DatabaseState.invalid = "invalid"

abbrev pub migration_name : MigrationState → String
migration_name MigrationState.not_checked = "not_checked"
migration_name MigrationState.current = "current"
migration_name MigrationState.invalid = "invalid"

abbrev pub mode_name : CheckMode → String
mode_name shallow = "shallow"
mode_name deep = "deep"

abbrev pub permissions_name : PermissionsState → String
permissions_name PermissionsState.not_checked = "not_checked"
permissions_name PermissionsState.safe = "safe"
permissions_name PermissionsState.unsafe = "unsafe"

abbrev pub latch_name : LatchState → String
latch_name LatchState.not_checked = "not_checked"
latch_name LatchState.valid = "valid"
latch_name LatchState.invalid = "invalid"

abbrev pub backup_name : BackupState → String
backup_name BackupState.never_created = "never_created"
backup_name BackupState.present_unverified = "present_unverified"
backup_name BackupState.verified = "verified"
backup_name BackupState.invalid = "invalid"

abbrev pub compiler_name : CompilerState → String
compiler_name CompilerState.absent = "absent"
compiler_name CompilerState.held = "held"
compiler_name CompilerState.invalid = "invalid"

-- `_COMPILER_STATE_LABELS`
abbrev pub compiler_label : CompilerState → String
compiler_label CompilerState.absent = "idle"
compiler_label CompilerState.held = "compiling"
compiler_label CompilerState.invalid = "invalid"

-- tests of the states that the report looks for
abbrev pub is_deep : CheckMode → Bool
is_deep shallow = false
is_deep deep = true

abbrev pub database_is_absent : DatabaseState → Bool
database_is_absent DatabaseState.absent = true
database_is_absent DatabaseState.present = false
database_is_absent DatabaseState.verified = false
database_is_absent DatabaseState.invalid = false

abbrev pub database_is_invalid : DatabaseState → Bool
database_is_invalid DatabaseState.absent = false
database_is_invalid DatabaseState.present = false
database_is_invalid DatabaseState.verified = false
database_is_invalid DatabaseState.invalid = true

abbrev pub migration_is_invalid : MigrationState → Bool
migration_is_invalid MigrationState.not_checked = false
migration_is_invalid MigrationState.current = false
migration_is_invalid MigrationState.invalid = true

abbrev pub is_unsafe : PermissionsState → Bool
is_unsafe PermissionsState.not_checked = false
is_unsafe PermissionsState.safe = false
is_unsafe PermissionsState.unsafe = true

abbrev pub latch_is_invalid : LatchState → Bool
latch_is_invalid LatchState.not_checked = false
latch_is_invalid LatchState.valid = false
latch_is_invalid LatchState.invalid = true

abbrev pub backup_is_invalid : BackupState → Bool
backup_is_invalid BackupState.never_created = false
backup_is_invalid BackupState.present_unverified = false
backup_is_invalid BackupState.verified = false
backup_is_invalid BackupState.invalid = true

abbrev pub compiler_is_invalid : CompilerState → Bool
compiler_is_invalid CompilerState.absent = false
compiler_is_invalid CompilerState.held = false
compiler_is_invalid CompilerState.invalid = true
