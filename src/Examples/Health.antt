-- ===== src/Examples/Health.antt =====
-- A store that is healthy, and the same store with a stale spool and two compilers.
use imprint.Base.{◌≡◌, refl, true, false, [], ◌∷◌, pos, negsuc, text_lt}
use imprint.Base.{sort_by}
use imprint.Health.Inputs.{
  HealthInputs, DatabaseState, MigrationState, CheckMode, PermissionsState, LatchState, BackupState,
  CompilerState,
}
use imprint.Health.{green, evaluate_health}
use imprint.Health.Verdict.{acknowledged-ignored}

abbrev healthy : HealthInputs
healthy = record {
  compiler_count = pos 1;
  database_state = DatabaseState.verified;
  migration_state = MigrationState.current;
  check_mode = CheckMode.deep;
  config_ok = true;
  hook_parity_ok = true;
  spool_depth = pos 3;
  oldest_spool_age_seconds = pos 90_000;
  pending_spool_depth = pos 0;
  oldest_pending_spool_age_seconds = negsuc 0;
  acknowledged_retained_spool_depth = pos 3;
  spool_stale_after_seconds = pos 3600;
  quarantine_count = pos 0;
  permissions_state = PermissionsState.safe;
  unsafe_permission_count = pos 0;
  selected_bytes = pos 1000;
  retrieval_omitted_count = pos 0;
  retrieval_budget_bytes = pos 32_768;
  higher_budget_explicit = false;
  latch_state = LatchState.valid;
  projection_snapshot_present = true;
  last_compile_age_seconds = pos 10;
  last_retrieval_age_seconds = pos 10;
  disk_free_bytes = pos 1;
  stale_lock_count = pos 0;
  abandoned_temp_count = pos 0;
  backup_state = BackupState.never_created;
  verified_backup_count = pos 0;
  invalid_backup_count = pos 0;
  compiler_state = CompilerState.absent;
}

abbrev sick : HealthInputs
sick = record healthy {
  compiler_count = pos 2;
  pending_spool_depth = pos 1;
  oldest_pending_spool_age_seconds = pos 3601;
}

healthy_green : (evaluate_health healthy).status ≡ green
unfolding evaluate_health
healthy_green = refl

sick_reasons : (evaluate_health sick).degraded_reasons ≡ "compiler_duplicate" ∷ "spool_stale" ∷ []
unfolding evaluate_health sort_by text_lt
sick_reasons = refl

-- the copies that are kept are many and old
abbrev kept : HealthInputs
kept = record healthy {
  spool_depth = pos 900;
  oldest_spool_age_seconds = pos 9_000_000;
  acknowledged_retained_spool_depth = pos 900;
}

acknowledged-ignored_example :
    ((evaluate_health kept).status ≡ (evaluate_health healthy).status)
    × ((evaluate_health kept).degraded_reasons ≡ (evaluate_health healthy).degraded_reasons)
acknowledged-ignored_example = acknowledged-ignored healthy (pos 900) (pos 9_000_000) (pos 900) refl
