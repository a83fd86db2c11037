-- ===== src/Health.antt =====
-- health/report.py: `evaluate_health`, a function of what the caller observed.
pub mod Inputs
pub mod Verdict
use imprint.Base.{
  ℕ, zero, suc, ◌+◌, ◌-◌, ◌*◌, ◌/◌, ◌%◌, ◌≤◌, ◌<◌, String, ◌≡◌, refl, sym, ap, ◌∙◌, ◌≢◌, ◌↔◌, ◌⊎◌,
  inl, inr, Bool, true, false, not, ◌&&◌, ◌||◌, Option, none, some, List, [], ◌∷◌, ◌++◌, map,
  reverse, arith, ltb, leb, ◌==◌, str_eq, str_eq_iff, if◌then◌else◌, Bool-cases, Option-cases,
  tests, length, length-append, keep, all, any, All, mem, distinct, ℤ, pos, negsuc, pos_part,
  neg_part, sub_ℕ, negate_ℕ, negate, ltbℤ, eqbℤ, codes, codes_eq, has_text, is_digit, is_lower,
  text_lt, sort_by, positive,
}
use imprint.Health.Inputs.{
  HealthInputs, database_name, migration_name, mode_name, permissions_name, latch_name, backup_name,
  compiler_name, compiler_label, database_is_absent, database_is_invalid, migration_is_invalid,
  is_deep, is_unsafe, latch_is_invalid, backup_is_invalid, compiler_is_invalid,
}

abbrev pub budget_limit : ℤ
budget_limit = pos (32 * 1024)

abbrev pub measured_pending : HealthInputs → Bool
measured_pending v = not (ltbℤ v.pending_spool_depth (pos 0))

abbrev pub stale_depth : HealthInputs → ℤ
stale_depth v = if measured_pending v then v.pending_spool_depth else v.spool_depth

abbrev pub stale_age : HealthInputs → ℤ
stale_age v =
    if measured_pending v then v.oldest_pending_spool_age_seconds else v.oldest_spool_age_seconds

-- the conditions of `evaluate_health` in the order of the code, each with its reason
unfoldable pub conditions : HealthInputs → List (Bool × String)
conditions v =
    (eqbℤ v.compiler_count (pos 0), "compiler_missing")
    ∷ (ltbℤ (pos 1) v.compiler_count, "compiler_duplicate")
    ∷ (database_is_absent v.database_state, "database_missing")
    ∷ (database_is_invalid v.database_state, "database_integrity_failed")
    ∷ (migration_is_invalid v.migration_state, "migration_invalid")
    ∷ (not v.config_ok, "config_invalid")
    ∷ (not v.hook_parity_ok, "hook_parity_failed")
    ∷ (positive (stale_depth v) && ltbℤ v.spool_stale_after_seconds (stale_age v), "spool_stale")
    ∷ (positive v.quarantine_count, "quarantine_present")
    ∷ (is_unsafe v.permissions_state || positive v.unsafe_permission_count, "unsafe_permissions")
    ∷ (ltbℤ v.retrieval_budget_bytes v.selected_bytes, "retrieval_budget_violated")
    ∷ (
      ltbℤ budget_limit v.retrieval_budget_bytes && not v.higher_budget_explicit,
      "retrieval_budget_unapproved",
    )
    ∷ (latch_is_invalid v.latch_state, "domain_latch_unsafe")
    ∷ (not (positive v.disk_free_bytes), "disk_space_exhausted")
    ∷ (positive v.stale_lock_count, "stale_lock_present")
    ∷ (compiler_is_invalid v.compiler_state, "compiler_lock_invalid")
    ∷ (positive v.abandoned_temp_count, "abandoned_temp_present")
    ∷ (backup_is_invalid v.backup_state, "backup_unverified")
    ∷ []

abbrev pub raised : List (Bool × String) → List String
raised [] = []
raised (c ∷ cs) = if c.0 then c.1 ∷ raised cs else raised cs

-- `set(reasons)`
abbrev pub unique : List String → List String
unique [] = []
unique (x ∷ xs) = let rest = unique xs in if mem x rest then rest else x ∷ rest

pub data Status : Type 0 where
  green red : Status

pub data Metric : Type 0 where
  number : ℤ → Metric
  flag : Bool → Metric
  label : String → Metric

pub record HealthReport : Type 0 where
  pub health_schema_version : String
  pub status : Status
  pub degraded_reasons : List String
  pub metrics : List (String × Metric)

abbrev pub status_code : Status → ℕ
status_code green = 0
status_code red = 1

abbrev pub exit_code : HealthReport → ℕ
exit_code r = status_code r.status

abbrev pub status_of : List String → Status
status_of [] = green
status_of (r ∷ rs) = red

unfoldable pub health_metrics : HealthInputs → List (String × Metric)
health_metrics v =
    ("check_mode", label (mode_name v.check_mode))
    ∷ ("compiler_count", number v.compiler_count)
    ∷ ("compiler_state", label (compiler_name v.compiler_state))
    ∷ ("compiler_state_label", label (compiler_label v.compiler_state))
    ∷ ("compiler_evidence", label "configured_authority_plus_compiler_lock")
    ∷ ("database_state", label (database_name v.database_state))
    ∷ (
      "database_evidence",
      label (
          if is_deep v.check_mode
          then "sqlite_pragma_integrity_check"
          else "regular_file_presence_only"),
    )
    ∷ ("migration_state", label (migration_name v.migration_state))
    ∷ ("hook_parity_ok", flag v.hook_parity_ok)
    ∷ ("hook_evidence", label "configured_hook_directory_required_sources")
    ∷ ("spool_depth", number v.spool_depth)
    ∷ ("oldest_spool_age_seconds", number v.oldest_spool_age_seconds)
    ∷ ("pending_spool_depth", number v.pending_spool_depth)
    ∷ ("oldest_pending_spool_age_seconds", number v.oldest_pending_spool_age_seconds)
    ∷ ("acknowledged_retained_spool_depth", number v.acknowledged_retained_spool_depth)
    ∷ (
      "spool_evidence",
      label (
          if measured_pending v
          then "exact_acknowledgement_hash_match"
          else "spool_file_presence_only"),
    )
    ∷ ("spool_stale_after_seconds", number v.spool_stale_after_seconds)
    ∷ ("quarantine_count", number v.quarantine_count)
    ∷ ("permissions_state", label (permissions_name v.permissions_state))
    ∷ ("unsafe_permission_count", number v.unsafe_permission_count)
    ∷ ("selected_bytes", number v.selected_bytes)
    ∷ ("retrieval_omitted_count", number v.retrieval_omitted_count)
    ∷ ("retrieval_budget_bytes", number v.retrieval_budget_bytes)
    ∷ ("higher_budget_explicit", flag v.higher_budget_explicit)
    ∷ ("latch_state", label (latch_name v.latch_state))
    ∷ ("projection_snapshot_present", flag v.projection_snapshot_present)
    ∷ ("last_compile_age_seconds", number v.last_compile_age_seconds)
    ∷ ("last_retrieval_age_seconds", number v.last_retrieval_age_seconds)
    ∷ ("disk_free_bytes", number (pos (pos_part v.disk_free_bytes)))
    ∷ ("stale_lock_count", number v.stale_lock_count)
    ∷ ("abandoned_temp_count", number v.abandoned_temp_count)
    ∷ ("backup_state", label (backup_name v.backup_state))
    ∷ ("verified_backup_count", number v.verified_backup_count)
    ∷ ("invalid_backup_count", number v.invalid_backup_count)
    ∷ []

unfoldable pub evaluate_health : HealthInputs → HealthReport
unfolding conditions
evaluate_health v =
    let reasons = raised (conditions v) in
    record {
      health_schema_version = "1.2.0";
      status = status_of reasons;
      degraded_reasons = sort_by text_lt (unique reasons);
      metrics = health_metrics v;
    }
