-- ===== src/Authority/Chain/Shapes.antt =====
-- authority/ledger.py: the details of a lifecycle event as `verify_authority_chain` reads them.
use imprint.Base.{ℕ, String, Bool, true, false, Option, none, some, List, [], ◌∷◌, str_eq}
use imprint.Ontology.Fault.{Checked, ok, err, validation_error, ◌>>=◌}
use imprint.Authority.Chain.{
  Certificate, Blob, Authorization, StateChange, Adjudication, Details, certificate, pairing,
  rotation, state_change, rebinding, adjudication, Key, KeyStatus, revoked, compromised, External,
  parse_timestamp,
}

abbrev pub timestamp : External → String → Checked ℕ
timestamp ext value = elim (parse_timestamp ext value) [
  | none ↦ err (validation_error "authority time must be RFC 3339 UTC")
  | some t ↦ ok t
]

abbrev pub nullable_timestamp : External → Option String → Checked (Option ℕ)
nullable_timestamp ext none = ok none
nullable_timestamp ext (some value) = do t ← timestamp ext value; ok (some t)

-- The details by their set of keys.
abbrev pub as_certificate : Details → Checked Certificate
as_certificate (certificate c) = ok c
as_certificate _ = err (validation_error "authority key certificate has unknown or missing fields")

abbrev pub as_pairing : Details → Checked (Certificate × (Blob × Authorization))
as_pairing (pairing c b a) = ok (c, (b, a))
as_pairing _ = err (validation_error "authority key certificate has unknown or missing fields")

abbrev pub as_rotation : Details → Checked (Certificate × (Blob × String))
as_rotation (rotation c b old) = ok (c, (b, old))
as_rotation _ = err (validation_error "authority rotation has unknown or missing fields")

abbrev pub as_state_change : Details → Checked StateChange
as_state_change (state_change s) = ok s
as_state_change _ = err (validation_error "authority key-state event has unknown or missing fields")

abbrev pub as_rebinding : Details → Checked (Certificate × (Blob × (String × Authorization)))
as_rebinding (rebinding c b old a) = ok (c, (b, (old, a)))
as_rebinding _ = err (validation_error "authority rebind has unknown or missing fields")

abbrev pub as_adjudication : Details → Checked Adjudication
as_adjudication (adjudication a) = ok a
as_adjudication _ = err (validation_error "authority conflict adjudication is invalid")

abbrev pub same_text_or_none : Option String → Option String → Bool
same_text_or_none none none = true
same_text_or_none (some a) (some b) = str_eq a b
same_text_or_none _ _ = false

abbrev pub the_only : List Key → Checked Key
the_only (k ∷ []) = ok k
the_only _ = err (validation_error "authority rebind source installation is ambiguous")

-- `value == [text]`
abbrev pub is_singleton : List String → String → Bool
is_singleton (a ∷ []) s = str_eq a s
is_singleton _ s = false

-- the known event types
pub data StateKind : Type 0 where
  key_revoked key_compromised recovery_revoked : StateKind

abbrev pub new_status : StateKind → KeyStatus
new_status key_revoked = revoked
new_status key_compromised = compromised
new_status recovery_revoked = revoked

abbrev pub is_compromise : StateKind → Bool
is_compromise key_compromised = true
is_compromise _ = false

abbrev pub is_recovery_revocation : StateKind → Bool
is_recovery_revocation recovery_revoked = true
is_recovery_revocation _ = false
