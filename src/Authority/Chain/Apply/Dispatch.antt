-- ===== src/Authority/Chain/Apply/Dispatch.antt =====
-- The dispatch on the event type in authority/ledger.py: a case for each kind of lifecycle event.
use imprint.Base.{ℕ, String, ◌≡◌, refl, Bool, true, false, Option, List, str_eq, if◌then◌else◌}
use imprint.Ontology.Fault.{Checked, ok, >>=-eq-ok, ◌>>=◌}
use imprint.Authority.Chain.{
  Certificate, Blob, Authorization, StateChange, Details, Event, Key, External, Adjudication,
}
use imprint.Authority.Chain.Shapes.{
  StateKind, as_certificate, as_pairing, as_rotation, as_state_change, as_rebinding,
  as_adjudication, key_revoked, key_compromised, recovery_revoked,
}
use imprint.Authority.Chain.Apply.{
  create_recovery, pair_installation, rotate, change_state, rebind, apply_event, adjudicate,
}

either {ℓ} :
    {P : Type ℓ} (b : Bool) (x y : Checked (List Key)) (out : List Key)
    → (if b then x else y) ≡ ok out
    → (b ≡ true → x ≡ ok out → P)
    → (y ≡ ok out → P)
    → P
either true x y out h f g = f refl h
either false x y out h f g = g h

module _ (ext : External) (operator : String) (store : Option String) (sequence : ℕ)
    (digest : String) (e : Event) (signer : Key) (keys : List Key) where
  pub apply_event-cases {ℓ} :
      (P : Type ℓ) (type : String) (details : Details) (out : List Key)
      → ((c : Certificate)
          → create_recovery ext operator store sequence digest e signer keys c ≡ ok out
          → P)
      → ((c : Certificate) (b : Blob) (a : Authorization)
          → pair_installation ext operator store sequence digest e signer keys c b a ≡ ok out
          → P)
      → ((c : Certificate) (b : Blob) (old : String)
          → str_eq type "key_rotated" ≡ true
          → rotate ext operator store sequence digest e signer keys c b old ≡ ok out
          → P)
      → ((kind : StateKind) (s : StateChange)
          → change_state ext operator store sequence digest e signer keys kind s ≡ ok out
          → P)
      → ((c : Certificate) (b : Blob) (old : String) (a : Authorization)
          → rebind ext operator store sequence digest e signer keys c b old a ≡ ok out
          → P)
      → ((a : Adjudication)
          → adjudicate ext operator store sequence digest e signer keys a ≡ ok out
          → P)
      → apply_event ext operator store sequence digest e signer keys type details ≡ ok out
      → P
  unfolding apply_event
  apply_event-cases P type details out recovered paired rotated ended rebound adjudicated h =
      let state : (kind : StateKind)
          → (as_state_change details
              >>= change_state ext operator store sequence digest e signer keys kind)
            ≡ ok out
          → P =
        λ kind h1. let (s, _, h2) = >>=-eq-ok (as_state_change details) _ h1 in ended kind s h2 in
      either (str_eq type "recovery_created") _ _ out h
        (λ is h1. let (c, _, h2) = >>=-eq-ok (as_certificate details) _ h1 in recovered c h2)
        (λ h1.
          either (str_eq type "installation_paired") _ _ out h1
            (λ is h2.
              let ((c, (b, a)), _, h3) = >>=-eq-ok (as_pairing details) _ h2 in paired c b a h3)
            (λ h2.
              either (str_eq type "key_rotated") _ _ out h2
                (λ is h3.
                  let ((c, (b, old)), _, h4) = >>=-eq-ok (as_rotation details) _ h3 in
                  rotated c b old is h4)
                (λ h3.
                  either (str_eq type "key_revoked") _ _ out h3 (λ is. state key_revoked)
                    (λ h4.
                      either (str_eq type "key_compromised") _ _ out h4
                        (λ is. state key_compromised)
                        (λ h5.
                          either (str_eq type "recovery_revoked") _ _ out h5
                            (λ is. state recovery_revoked)
                            (λ h6.
                              either (str_eq type "installation_rebound") _ _ out h6
                                (λ is h7.
                                  let ((c, (b, (old, a))), _, h8) =
                                    >>=-eq-ok (as_rebinding details) _ h7 in
                                  rebound c b old a h8)
                                (λ h7.
                                  either (str_eq type "authority_conflict_adjudicated") _ _ out h7
                                    (λ is h8.
                                      let (a, _, h9) = >>=-eq-ok (as_adjudication details) _ h8 in
                                      adjudicated a h9)
                                    (λ h8. cc))))))))
