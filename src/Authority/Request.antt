-- ===== src/Authority/Request.antt =====
-- `ChallengeRequest` of authority/challenge.py: the exact mutation that an approval is for.
use imprint.Base.{
  str_eq_refl, ℕ, String, ◌≡◌, refl, Bool, true, false, not, ◌&&◌, ◌||◌, List, [], ◌∷◌, arith, leb,
  ◌==◌, str_eq, str_eq_iff, length, all, distinct, codes, is_digit,
}
use imprint.Authority.Error.{Result, demand, ◌>>◌, empty_field, not_a_digest, bad_list}

pub record ChallengeRequest : Type 0 where
  pub operation_id : String
  pub purpose : String
  pub payload_sha256 : String
  pub prior_state_sha256 : String
  pub execution_fields_sha256 : String
  pub authority_transition : String
  pub subject_ids : List String
  pub source_ids : List String
  pub target_ids : List String
  pub proposal_ids : List String
  pub result_version_ids : List String
  pub scope : List String
  pub field_paths : List String

abbrev pub nonempty : String → Bool
nonempty s = not (str_eq s "")

abbrev is_hex : ℕ → Bool
is_hex c = is_digit c || (leb b'a' c && leb c b'f')

-- 64 lower-case hexadecimal digits
unfoldable pub is_sha256 : String → Bool
is_sha256 value = length (codes value) == 64 && all is_hex (codes value)

-- `_string_list`: texts that are not empty and do not repeat
unfoldable pub is_string_list : List String → Bool
is_string_list values = all nonempty values && distinct values

unfoldable pub validate_request : ChallengeRequest → Result (Unit {0})
unfolding is_sha256 is_string_list
validate_request r = do
  demand (nonempty r.operation_id && nonempty r.purpose && nonempty r.authority_transition)
      empty_field
  demand
      (is_sha256 r.payload_sha256
        && is_sha256 r.prior_state_sha256
        && is_sha256 r.execution_fields_sha256)
      not_a_digest
  demand
      (is_string_list r.subject_ids
        && is_string_list r.source_ids
        && is_string_list r.target_ids
        && is_string_list r.proposal_ids
        && is_string_list r.result_version_ids
        && is_string_list r.scope
        && is_string_list r.field_paths)
      bad_list

abbrev same_texts : List String → List String → Bool
same_texts [] [] = true
same_texts (a ∷ as') (b ∷ bs) = str_eq a b && same_texts as' bs
same_texts _ _ = false

-- the comparison of `_assert_request_exact`, field by field
unfoldable pub same_request : ChallengeRequest → ChallengeRequest → Bool
same_request a b =
    str_eq a.operation_id b.operation_id
    && str_eq a.purpose b.purpose
    && str_eq a.payload_sha256 b.payload_sha256
    && str_eq a.prior_state_sha256 b.prior_state_sha256
    && str_eq a.execution_fields_sha256 b.execution_fields_sha256
    && str_eq a.authority_transition b.authority_transition
    && same_texts a.subject_ids b.subject_ids
    && same_texts a.source_ids b.source_ids
    && same_texts a.target_ids b.target_ids
    && same_texts a.proposal_ids b.proposal_ids
    && same_texts a.result_version_ids b.result_version_ids
    && same_texts a.scope b.scope
    && same_texts a.field_paths b.field_paths

same_texts_refl : (xs : List String) → same_texts xs xs ≡ true
same_texts_refl [] = refl
same_texts_refl (x ∷ xs) = rw (str_eq_refl x) (same_texts_refl xs)

same_texts-eq : (xs ys : List String) → same_texts xs ys ≡ true → xs ≡ ys
same_texts-eq [] [] h = refl
same_texts-eq [] (y ∷ ys) h = cc
same_texts-eq (x ∷ xs) [] h = cc
same_texts-eq (x ∷ xs) (y ∷ ys) h = ground (arith, same_texts-eq xs ys, str_eq_iff x y)

pub same_request_refl : (r : ChallengeRequest) → same_request r r ≡ true
unfolding same_request
same_request_refl r = simp (str_eq_refl, same_texts_refl)

-- An approval passes the comparison only for a request that is the same in every field.
pub same_request-eq : (a b : ChallengeRequest) → same_request a b ≡ true → a ≡ b
unfolding same_request
same_request-eq a b h = ground (
  arith,
  str_eq_iff a.operation_id b.operation_id,
  str_eq_iff a.purpose b.purpose,
  str_eq_iff a.payload_sha256 b.payload_sha256,
  str_eq_iff a.prior_state_sha256 b.prior_state_sha256,
  str_eq_iff a.execution_fields_sha256 b.execution_fields_sha256,
  str_eq_iff a.authority_transition b.authority_transition,
  same_texts-eq a.subject_ids b.subject_ids,
  same_texts-eq a.source_ids b.source_ids,
  same_texts-eq a.target_ids b.target_ids,
  same_texts-eq a.proposal_ids b.proposal_ids,
  same_texts-eq a.result_version_ids b.result_version_ids,
  same_texts-eq a.scope b.scope,
  same_texts-eq a.field_paths b.field_paths,
)
