-- ===== src/Retrieve/Models.antt =====
-- retrieve/models.py: the closed public types of the retrieval boundary. A float confidence is
-- kept as the text that `repr` gives it, since the engine only prints it.
use imprint.Base.{ℤ, String, Bool, true, false, Option, List, [], ◌∷◌}

pub data Section : Type 0 where
  core general domain : Section

abbrev pub same_section : Section → Section → Bool
same_section core core = true
same_section general general = true
same_section domain domain = true
same_section _ _ = false

abbrev pub ontology_partitions : List String
ontology_partitions = "judgment" ∷ "self_model" ∷ "business_declared" ∷ "business_observed" ∷ []

pub record RetrievalRecord : Type 0 where
  pub record_id : String
  pub text : String
  pub section : Section
  pub provenance_status : String
  pub authority_tier : String
  pub evidence_ids : List String
  pub case_ids : List String
  pub case_referents : List String
  pub source_receipt_ids : List String
  pub domain_id : Option String
  pub pinned : Bool
  pub recurrence_count : ℤ
  pub valid_from : String
  pub current : Bool
  pub rejected : Bool
  pub tombstoned : Bool
  pub valid_until : Option String
  pub provenance_complete : Bool
  pub imported_selected : Bool
  pub ontology_partition : String
  pub ontology_type : String
  pub ontology_path : List String
  pub confidence : Option String
  pub disclosure : String

pub record RetrievalConfig : Type 0 where
  pub total_budget_bytes : ℤ
  pub allow_higher_budget : Bool
  pub tokenizer_version : String
  pub authority_mode : String
  pub output_format : String
