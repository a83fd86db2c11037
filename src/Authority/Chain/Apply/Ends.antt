-- ===== src/Authority/Chain/Apply/Ends.antt =====
-- The end of a key and the adjudication in authority/ledger.py, and the source of a rebinding.
use imprint.Base.{
  ℕ, String, ◌≡◌, refl, sym, true, false, not, ◌&&◌, Option, some, List, [], ◌∷◌, arith, str_eq,
  keep, all, All, distinct, has_text,
}
use imprint.Base.{All-keep_test, All-Mem}
use mathlib.Core.List.{Memᴰ}
use mathlib.Core.Path.{subst}
use imprint.Ontology.Fault.{ok, >>=-eq-ok, demand->>-ok}
use imprint.Authority.Request.{is_sha256}
use imprint.Authority.Chain.{StateChange, Adjudication, Event, Key, External}
use imprint.Authority.Chain.Keys.{is_active, key_id_of, get_key, update_key, is_installation}
use imprint.Authority.Chain.Keys.Table.{ids, get_key-Mem}
use imprint.Authority.Chain.Shapes.{
  StateKind, the_only, is_singleton, is_compromise, is_recovery_revocation, timestamp,
  nullable_timestamp, key_revoked, key_compromised, recovery_revoked,
}
use imprint.Authority.Chain.Apply.{
  boundary, no_later, known_or_none, active_key, change_state, adjudicate, serves, end_key,
}

pub active_key-ok :
    (id : String) (keys : List Key) (message : String) (k : Key)
    → active_key id keys message ≡ ok k
    → (get_key id keys ≡ some k) × (is_active k ≡ true)
unfolding active_key
active_key-ok id keys message k h = ground arith

pub ok_injective {ℓ} : {A : Type ℓ} (a b : A) → ok a ≡ ok b → a ≡ b
ok_injective a b h = ground arith

the_only-ok : (ks : List Key) (k : Key) → the_only ks ≡ ok k → ks ≡ k ∷ []
the_only-ok [] k h = cc
the_only-ok (x ∷ []) k h = ground arith
the_only-ok (x ∷ y ∷ ks) k h = cc

-- the source installation of a rebinding
pub served :
    (install : String) (keys : List Key) (k : Key)
    → distinct (ids keys) ≡ true
    → the_only (keep (serves install) keys) ≡ ok k
    → (get_key (key_id_of k) keys ≡ some k) × (serves install k ≡ true)
served install keys k h only =
    let all_kept = All-keep_test (λ x. Memᴰ x keys) (serves install) keys (All-Mem keys) in
    let (one, _) =
      subst (All (λ x. Memᴰ x keys × (serves install x ≡ true)))
        (the_only-ok (keep (serves install) keys) k only) all_kept in
    (get_key-Mem k keys h one.0, one.1)

module _ (ext : External) (operator : String) (store : Option String) (sequence : ℕ)
    (digest : String) (e : Event) (signer : Key) (keys : List Key) where
  pub end_key-inactive :
      (kind : StateKind) (s : StateChange) (k : Key)
      → is_active (end_key ext operator store sequence digest e signer keys kind s k) ≡ false
  end_key-inactive key_revoked s k = refl
  end_key-inactive key_compromised s k = refl
  end_key-inactive recovery_revoked s k = refl

  pub serves-active : (install : String) (k : Key) → serves install k ≡ true → is_active k ≡ true
  serves-active install k h = ground arith

  pub change_state-ends :
      (kind : StateKind) (s : StateChange) (out : List Key)
      → change_state ext operator store sequence digest e signer keys kind s ≡ ok out
      → (target : Key) × (get_key s.target_key_id keys ≡ some target)
        × (is_active target ≡ true)
        × (out
            ≡ update_key s.target_key_id
                (end_key ext operator store sequence digest e signer keys kind s)
                keys)
  unfolding change_state
  change_state-ends kind s out h =
      let (_, h1) = demand->>-ok (has_text s.reason) _ _ h in
      let (_, h2) = demand->>-ok (str_eq e.columns.key_id s.target_key_id) _ _ h1 in
      let (target, h3, h4) = >>=-eq-ok (active_key s.target_key_id keys _) _ h2 in
      let (there, on) = active_key-ok s.target_key_id keys _ target h3 in
      let (_, h5) =
        demand->>-ok (not (is_compromise kind && str_eq (key_id_of signer) s.target_key_id)) _ _
          h4 in
      let (_, h6) =
        demand->>-ok (not (is_recovery_revocation kind && is_installation target.kind)) _ _ h5 in
      let (_, h7) =
        demand->>-ok
          (is_singleton s.affected_installation_ids target.certified.install_id
            && is_singleton s.required_revocation_key_ids s.target_key_id
            && all is_sha256 s.evidence_sha256s)
          _ _ h6 in
      let (_, _, h8) = >>=-eq-ok (timestamp ext s.effective_at) _ h7 in
      let (_, _, h9) = >>=-eq-ok (nullable_timestamp ext s.compromised_at) _ h8 in
      let (compromise, _, h10) =
        >>=-eq-ok
          (nullable_timestamp ext
            (boundary ext operator store sequence digest e signer keys kind s))
          _ h9 in
      let (_, h11) =
        demand->>-ok (no_later ext operator store sequence digest e signer keys compromise _) _ _
          h10 in
      let (_, h12) =
        demand->>-ok
          (known_or_none ext operator store sequence digest e signer keys s.replacement_key_id) _ _
          h11 in
      (
        target,
        there,
        on,
        sym (
            ok_injective
              (update_key s.target_key_id
                (end_key ext operator store sequence digest e signer keys kind s) keys)
              out h12),
      )

  pub adjudicate-same :
      (a : Adjudication) (out : List Key)
      → adjudicate ext operator store sequence digest e signer keys a ≡ ok out
      → keys ≡ out
  unfolding adjudicate
  adjudicate-same a out h =
      let (_, h1) = demand->>-ok (has_text a.reason && not (is_installation signer.kind)) _ _ h in
      let (_, h2) =
        demand->>-ok (is_sha256 a.chosen_checkpoint_sha256 && is_sha256 a.rejected_proof_sha256) _ _
          h1 in
      let (_, _, h3) = >>=-eq-ok (timestamp ext a.effective_at) _ h2 in ok_injective keys out h3
