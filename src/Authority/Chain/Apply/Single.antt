-- ===== src/Authority/Chain/Apply/Single.antt =====
-- The active installation keys of an installation, event type by event type (authority/ledger.py).
use imprint.Base.{
  str_eq_refl, str_eq_iff, Bool-cases, inl, inr, ℕ, suc, ◌+◌, ◌≤◌, String, ◌≡◌, refl, sym, ap, ◌∙◌,
  inl, inr, true, false, not, ◌&&◌, Option, none, some, List, [], ◌∷◌, ◌++◌, arith, str_eq,
  str_eq_iff, if◌then◌else◌, Bool-cases, length, keep, any,
}
use mathlib.Core.Path.{subst}
use imprint.Ontology.Fault.{ok, >>=-eq-ok, demand->>-ok}
use imprint.Authority.Chain.{
  Certificate, Blob, Authorization, Event, Key, External, recovery, installation, StateChange,
  Details,
}
use imprint.Authority.Chain.Keys.{
  is_active, key_id_of, get_key, has_key_id, update_key, new_chain_key, retire, is_installation,
}
use imprint.Authority.Chain.Keys.Table.{new_chain_key-eq, some_injective}
use imprint.Authority.Chain.Apply.{
  active_key, create_recovery, pair_installation, rotate, check_authorization, certified_now,
  represents, StateKind, rebind, the_only, change_state, serves, end_key, apply_event,
}
use imprint.Authority.Chain.Apply.Dispatch.{apply_event-cases}
use imprint.Authority.Chain.Apply.Ends.{
  active_key-ok, ok_injective, change_state-ends, end_key-inactive, adjudicate-same,
}

-- how many active installation keys an installation has
abbrev pub representatives : String → List Key → ℕ
representatives install keys = length (keep (represents install) keys)

-- every installation has one active installation key at most
abbrev pub OneActive : List Key → Type 0
OneActive keys = (install : String) → representatives install keys ≤ 1

representatives-append :
    (install : String) (keys : List Key) (k : Key)
    → representatives install (keys ++ k ∷ [])
      ≡ representatives install keys + (if represents install k then 1 else 0)
representatives-append install [] k = ground arith
representatives-append install (x ∷ keys) k = ground (arith, representatives-append install keys k)

-- an end of a key never adds a representative
representatives-update_key :
    (install id : String) (f : Key → Key) (keys : List Key)
    → ((x : Key) → is_active (f x) ≡ false)
    → representatives install (update_key id f keys) ≤ representatives install keys
unfolding update_key
representatives-update_key install id f [] stop = omega arith
representatives-update_key install id f (x ∷ keys) stop =
    ground (arith, stop x, representatives-update_key install id f keys stop)

-- the end of a representative takes one away
representatives-ended :
    (install id : String) (f : Key → Key) (keys : List Key) (k : Key)
    → ((x : Key) → is_active (f x) ≡ false)
    → get_key id keys ≡ some k
    → represents install k ≡ true
    → suc (representatives install (update_key id f keys)) ≤ representatives install keys
unfolding update_key get_key
representatives-ended install id f [] k stop there rep = cc
representatives-ended install id f (x ∷ keys) k stop there rep =
    elim (Bool-cases (str_eq (key_id_of x) id)) [
      | inl e ↦
          let it : x ≡ k = some_injective x k (rw e at there) in
          let was : represents install x ≡ true = rw it rep in
          let rest = representatives-update_key install id f keys stop in
          rw e (ground (arith, stop x, was, rest))
      | inr e ↦
          let rest = representatives-ended install id f keys k stop (rw e at there) rep in
          rw e (ground (arith, rest))
    ]

none-representatives :
    (install : String) (keys : List Key)
    → not (any (represents install) keys) ≡ true
    → representatives install keys ≡ 0
none-representatives install [] h = refl
none-representatives install (x ∷ keys) h = ground (arith, none-representatives install keys)

-- a new key of an installation that has no representative
represented-OneActive :
    (keys : List Key) (k : Key)
    → OneActive keys
    → representatives k.certified.install_id keys ≡ 0
    → OneActive (keys ++ k ∷ [])
represented-OneActive keys k one free install =
    elim (Bool-cases (str_eq k.certified.install_id install)) [
      | inl e ↦
          let same : k.certified.install_id ≡ install =
            (str_eq_iff k.certified.install_id install).0 e in
          let none_there : representatives install keys ≡ 0 =
            subst (λ x. representatives x keys ≡ 0) same free in
          rw (representatives-append install keys k) (ground (arith, none_there))
      | inr e ↦ rw (representatives-append install keys k) (ground (arith, e, one install))
    ]

recovery-OneActive :
    (keys : List Key) (k : Key)
    → is_installation k.kind ≡ false
    → OneActive keys
    → OneActive (keys ++ k ∷ [])
recovery-OneActive keys k kind one install =
    rw (representatives-append install keys k) (ground (arith, kind, one install))

update_key-OneActive :
    (id : String) (f : Key → Key) (keys : List Key)
    → ((x : Key) → is_active (f x) ≡ false)
    → OneActive keys
    → OneActive (update_key id f keys)
update_key-OneActive id f keys stop one install =
    omega (arith, one install, representatives-update_key install id f keys stop)

module _ (ext : External) (operator : String) (store : Option String) (sequence : ℕ)
    (digest : String) (e : Event) (signer : Key) (keys : List Key) where
  certified-OneActive :
      (ks : List Key) (c : Certificate) (blob : Option Blob) (k : Key) (out : List Key)
      → new_chain_key ext c blob installation ≡ ok k
      → ok (ks ++ certified_now ext operator store sequence digest e signer keys k ∷ []) ≡ ok out
      → representatives c.install_id ks ≡ 0
      → OneActive ks
      → OneActive out
  certified-OneActive ks c blob k out made done free one =
      let at = new_chain_key-eq ext c blob installation k made in
      let now = certified_now ext operator store sequence digest e signer keys in
      let install_same : k.certified.install_id ≡ c.install_id =
        ap (λ (x : Key). x.certified.install_id) at in
      subst OneActive (ok_injective (ks ++ now k ∷ []) out done)
        (represented-OneActive ks (now k) one (rw install_same free))

  create_recovery-OneActive :
      (c : Certificate) (out : List Key)
      → create_recovery ext operator store sequence digest e signer keys c ≡ ok out
      → OneActive keys
      → OneActive out
  unfolding create_recovery
  create_recovery-OneActive c out h one =
      let (k, h1, h2) = >>=-eq-ok (new_chain_key ext c none recovery) _ h in
      let (_, h3) =
        demand->>-ok (str_eq e.columns.key_id c.key_id && str_eq e.columns.install_id c.install_id)
          _ _ h2 in
      let (_, h4) = demand->>-ok (not (has_key_id c.key_id keys)) _ _ h3 in
      let now = certified_now ext operator store sequence digest e signer keys in
      let kind : is_installation k.kind ≡ false =
        ap (λ (x : Key). is_installation x.kind) (new_chain_key-eq ext c none recovery k h1) in
      subst OneActive (ok_injective (keys ++ now k ∷ []) out h4)
        (recovery-OneActive keys (now k) kind one)

  pair_installation-OneActive :
      (c : Certificate) (blob : Blob) (a : Authorization) (out : List Key)
      → pair_installation ext operator store sequence digest e signer keys c blob a ≡ ok out
      → OneActive keys
      → OneActive out
  unfolding pair_installation
  pair_installation-OneActive c blob a out h one =
      let (k, h1, h2) = >>=-eq-ok (new_chain_key ext c (some blob) installation) _ h in
      let (_, h3) =
        demand->>-ok (str_eq e.columns.key_id c.key_id && str_eq e.columns.install_id c.install_id)
          _ _ h2 in
      let (_, h4) = demand->>-ok (not (has_key_id c.key_id keys)) _ _ h3 in
      let (free, h5) = demand->>-ok (not (any (represents c.install_id) keys)) _ _ h4 in
      let (_, _, h6) =
        >>=-eq-ok (check_authorization ext operator store a c e.columns.previous_event_sha256 _) _
          h5 in
      certified-OneActive keys c (some blob) k out h1 h6
        (none-representatives c.install_id keys free) one

  rotate-OneActive :
      (c : Certificate) (blob : Blob) (old_id : String) (out : List Key)
      → rotate ext operator store sequence digest e signer keys c blob old_id ≡ ok out
      → get_key (key_id_of signer) keys ≡ some signer
      → is_installation signer.kind ≡ true
      → OneActive keys
      → OneActive out
  unfolding rotate
  rotate-OneActive c blob old_id out h there kind one =
      let (same, h1) = demand->>-ok (str_eq (key_id_of signer) old_id) _ _ h in
      let (old, h2, h3) = >>=-eq-ok (active_key old_id keys _) _ h1 in
      let (there_old, on) = active_key-ok old_id keys _ old h2 in
      let (k, h4, h5) = >>=-eq-ok (new_chain_key ext c (some blob) installation) _ h3 in
      let (_, h6) = demand->>-ok (not (has_key_id c.key_id keys)) _ _ h5 in
      let (install_same, h7) = demand->>-ok (str_eq c.install_id old.certified.install_id) _ _ h6 in
      let at : key_id_of signer ≡ old_id = (str_eq_iff (key_id_of signer) old_id).0 same in
      let it : signer ≡ old =
        some_injective signer old (sym there ∙ ap (λ x. get_key x keys) at ∙ there_old) in
      let old_kind : is_installation old.kind ≡ true =
        subst (λ (x : Key). is_installation x.kind ≡ true) it kind in
      let rep : represents c.install_id old ≡ true =
        rw
          (
            (str_eq_iff c.install_id old.certified.install_id).0 install_same,
            old_kind,
            str_eq_refl old.certified.install_id,
            on,
          )
          refl in
      let end = retire e.columns.created_at in
      let less = representatives-ended c.install_id old_id end keys old (λ x. refl) there_old rep in
      certified-OneActive (update_key old_id end keys) c (some blob) k out h4 h7
        (omega (arith, less, one c.install_id))
        (update_key-OneActive old_id end keys (λ x. refl) one)

  change_state-OneActive :
      (kind : StateKind) (s : StateChange) (out : List Key)
      → change_state ext operator store sequence digest e signer keys kind s ≡ ok out
      → OneActive keys
      → OneActive out
  change_state-OneActive kind s out h one =
      let (target, there, on, it) =
        change_state-ends ext operator store sequence digest e signer keys kind s out h in
      rw it (
        update_key-OneActive s.target_key_id
          (end_key ext operator store sequence digest e signer keys kind s) keys
          (end_key-inactive ext operator store sequence digest e signer keys kind s) one)

  rebind-OneActive :
      (c : Certificate) (blob : Blob) (old_install : String) (a : Authorization) (out : List Key)
      → rebind ext operator store sequence digest e signer keys c blob old_install a ≡ ok out
      → OneActive keys
      → OneActive out
  unfolding rebind
  rebind-OneActive c blob old_install a out h one =
      let (old, _, h1) = >>=-eq-ok (the_only (keep (serves old_install) keys)) _ h in
      let end = retire e.columns.created_at in
      let rest = update_key (key_id_of old) end keys in
      let (k, h2, h3) = >>=-eq-ok (new_chain_key ext c (some blob) installation) _ h1 in
      let (_, h4) = demand->>-ok (not (has_key_id c.key_id rest)) _ _ h3 in
      let (free, h5) = demand->>-ok (not (any (represents c.install_id) rest)) _ _ h4 in
      let (_, _, h6) =
        >>=-eq-ok (check_authorization ext operator store a c e.columns.previous_event_sha256 _) _
          h5 in
      certified-OneActive rest c (some blob) k out h2 h6
        (none-representatives c.install_id rest free)
        (update_key-OneActive (key_id_of old) end keys (λ x. refl) one)

  -- A rotation is the only event that needs more than what the verifier checks: its signer is an
  -- installation key.
  pub apply_event-OneActive :
      (type : String) (details : Details) (out : List Key)
      → get_key (key_id_of signer) keys ≡ some signer
      → (str_eq type "key_rotated" ≡ true → is_installation signer.kind ≡ true)
      → OneActive keys
      → apply_event ext operator store sequence digest e signer keys type details ≡ ok out
      → OneActive out
  apply_event-OneActive type details out there rotates one h =
      apply_event-cases ext operator store sequence digest e signer keys (OneActive out) type
        details out (λ c h1. create_recovery-OneActive c out h1 one)
        (λ c b a h1. pair_installation-OneActive c b a out h1 one)
        (λ c b old is h1. rotate-OneActive c b old out h1 there (rotates is) one)
        (λ kind s h1. change_state-OneActive kind s out h1 one)
        (λ c b old a h1. rebind-OneActive c b old a out h1 one)
        (λ a h1.
          subst OneActive
            (adjudicate-same ext operator store sequence digest e signer keys a out h1) one)
        h
