-- ===== src/Authority/Chain/Keys.antt =====
-- authority/ledger.py: the keys of the chain, `_new_chain_key`, `key_state_sha256` and
-- `_signer_certificate`. The dictionary `keys` is a list with one entry for each key identity.
pub mod Table
use imprint.Base.{
  ℕ, zero, suc, ◌+◌, ◌-◌, ◌*◌, ◌/◌, ◌%◌, ◌≤◌, ◌<◌, String, ◌≡◌, refl, sym, ap, ◌∙◌, ◌≢◌, ◌↔◌, ◌⊎◌,
  inl, inr, Bool, true, false, not, ◌&&◌, ◌||◌, Option, none, some, List, [], ◌∷◌, ◌++◌, map,
  reverse, arith, ltb, leb, ◌==◌, str_eq, str_eq_iff, if◌then◌else◌, Bool-cases, Option-cases,
  tests, length, length-append, keep, all, any, All, mem, distinct, ℤ, pos, negsuc, pos_part,
  neg_part, sub_ℕ, negate_ℕ, negate, ltbℤ, eqbℤ, codes, codes_eq, has_text, is_digit, is_lower,
  text_lt,
}
use imprint.Base.{sort_by}
use imprint.Ontology.Fault.{Checked, ok, err, validation_error, demand, ◌>>=◌, ◌>>◌}
use imprint.Authority.Chain.{
  Certificate, Blob, Key, KeyKind, KeyStatus, installation, recovery, active, retired, revoked,
  compromised, External, SignerCertificate,
}

abbrev pub is_active : Key → Bool
is_active k = elim k.status [
  | active ↦ true
  | retired ↦ false
  | revoked ↦ false
  | compromised ↦ false
]

abbrev pub is_installation : KeyKind → Bool
is_installation installation = true
is_installation recovery = false

abbrev pub key_id_of : Key → String
key_id_of k = k.certified.key_id

-- `keys.get(key_id)`
unfoldable pub get_key : String → List Key → Option Key
get_key id [] = none
get_key id (k ∷ ks) = if str_eq (key_id_of k) id then some k else get_key id ks

abbrev pub is_in : Option Key → Bool
is_in none = false
is_in (some k) = true

-- `key_id in keys`
unfoldable pub has_key_id : String → List Key → Bool
has_key_id id keys = is_in (get_key id keys)

-- an assignment to the entry of a key identity
unfoldable pub update_key : String → (Key → Key) → List Key → List Key
update_key id f [] = []
update_key id f (k ∷ ks) = (if str_eq (key_id_of k) id then f k else k) ∷ update_key id f ks

abbrev raw_ok : External → String → Option (List ℕ) → Checked (Unit {0})
raw_ok ext fingerprint none = err (validation_error "authority ledger public key is invalid")
raw_ok ext fingerprint (some raw) =
    demand
      (length raw == 32
        && codes_eq (codes fingerprint) (codes "sha256:" ++ codes (ext.sha256_raw raw)))
      "authority ledger public key fingerprint mismatch"

abbrev blob_ok : Option Blob → Checked (Unit {0})
blob_ok none = ok tt
blob_ok (some b) =
    demand (length (codes b.blob_sha256) == 64 && ltbℤ (pos 0) b.blob_size)
      "authority ledger blob binding is invalid"

abbrev pub chain_key : Certificate → Option Blob → KeyKind → Key
chain_key c blob kind = record {
  certified = c;
  kind = kind;
  status = active;
  paired = is_installation kind;
  certificate_sequence = none;
  certificate_event_sha256 = none;
  effective_at = none;
  compromised_at = none;
  replacement_key_id = none;
  blob = blob;
}

unfoldable pub new_chain_key : External → Certificate → Option Blob → KeyKind → Checked Key
new_chain_key ext c blob kind = do
  raw_ok ext c.public_key_fingerprint (ext.b64decode c.public_key_b64)
  blob_ok blob
  ok (chain_key c blob kind)

-- `certified.update({...})`
abbrev pub certify : ℕ → Option String → String → Key → Key
certify sequence digest created_at k = record k {
  certificate_sequence = some sequence;
  certificate_event_sha256 = digest;
  effective_at = some created_at;
  compromised_at = none;
  replacement_key_id = none;
}

abbrev pub retire : String → Key → Key
retire created_at k = record k { status = retired; effective_at = some created_at }

abbrev key_lt : Key → Key → Bool
key_lt a b = text_lt (key_id_of a) (key_id_of b)

abbrev without_blob : Key → Key
without_blob k = record k { blob = none }

-- `_key_state_value`: the keys by identity, without what binds them to a file
unfoldable pub key_state_value : List Key → List Key
key_state_value keys = map without_blob (sort_by key_lt keys)

unfoldable pub key_state_sha256 : External → List Key → String
unfolding key_state_value
key_state_sha256 ext keys = ext.sha256 (ext.key_state_json (key_state_value keys))

abbrev kind_text : KeyKind → String
kind_text installation = "installation"
kind_text recovery = "recovery"

unfoldable pub signer_certificate : Key → SignerCertificate
signer_certificate k = record {
  certificate_version = "imprint.authority.installation-certificate/1.0.0";
  certified = k.certified;
  kind = kind_text k.kind;
  paired = k.paired;
  authorization_sequence = k.certificate_sequence;
  authorization_event_sha256 = k.certificate_event_sha256;
  status_at_checkpoint = "active";
}
