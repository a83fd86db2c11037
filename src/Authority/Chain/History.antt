-- ===== src/Authority/Chain/History.antt =====
-- The digest of the last event of a ledger that `verify_authority_chain` accepts stands for all the
-- events before it, as far as no two of the events in question have one digest.
use imprint.Base.{
  Option-cases, inl, inr, ℕ, zero, suc, String, ◌≡◌, refl, sym, ap, ◌∙◌, ◌⊎◌, inl, inr, true, false,
  not, ◌&&◌, Option, none, some, List, [], ◌∷◌, ◌++◌, str_eq_iff, Option-cases, length, All, ℤ, pos,
  negsuc, ltbℤ,
}
use imprint.Base.{All-map}
use mathlib.Core.Path.{subst}
use imprint.Ontology.Fault.{ok, demand->>-ok, demand-ok}
use imprint.Authority.Chain.{Event, LedgerRow, Key, External, event_digest}
use imprint.Authority.Chain.Keys.Table.{some_injective}
use imprint.Authority.Chain.Apply.Ends.{ok_injective}
use imprint.Authority.Chain.Verify.{Entry, verify_rows, verify_events, digest_after}
use imprint.Authority.Chain.Verify.Steps.{verify_row-Accepted, verify_rows-cons}
use imprint.Authority.Chain.Verify.Start.{verify_events-Started}
use imprint.Authority.Chain.Heads.{PinnedHead, check_pin, entry_at, entry_at_int, has_digest}

abbrev push : Option Event → List Event → List Event
push none past = past
push (some e) past = e ∷ past

append-one {ℓ} :
    {A : Type ℓ} (xs : List A) (x : A) (ys : List A) → (xs ++ x ∷ []) ++ ys ≡ xs ++ x ∷ ys
append-one [] x ys = refl
append-one (y ∷ xs) x ys = ap (λ t. y ∷ t) (append-one xs x ys)

append-two {ℓ} : {A : Type ℓ} (xs ys zs : List A) → (xs ++ ys) ++ zs ≡ xs ++ ys ++ zs
append-two [] ys zs = refl
append-two (x ∷ xs) ys zs = ap (λ t. x ∷ t) (append-two xs ys zs)

All-right {ℓ κ} : {A : Type ℓ} (P : A → Type κ) (xs ys : List A) → All P (xs ++ ys) → All P ys
All-right P [] ys h = h
All-right P (x ∷ xs) ys h = All-right P xs ys h.1

module _ (ext : External) where
  -- the events of the rows, the newest first, in front of those before them
  abbrev events_onto : List LedgerRow → List Event → List Event
  events_onto [] past = past
  events_onto (r ∷ rs) past = events_onto rs (push (ext.decode r.event_json) past)

  abbrev pub history : List LedgerRow → List Event
  history rows = events_onto rows []

  -- each event has the digest that the one behind it names
  abbrev Linked : Option String → List Event → Type 0
  Linked head [] = head ≡ none
  Linked head (e ∷ es) =
      (head ≡ some (event_digest ext e)) × Linked e.columns.previous_event_sha256 es

  -- the events of two histories that have one digest are one event
  abbrev pub CollisionFree : List Event → List Event → Type 0
  CollisionFree es fs =
      All (λ (a : Event). All (λ (b : Event). event_digest ext a ≡ event_digest ext b → a ≡ b) fs)
        es

  Linked-unique :
      (head : Option String) (es fs : List Event)
      → CollisionFree es fs
      → Linked head es
      → Linked head fs
      → es ≡ fs
  Linked-unique head [] [] free h k = refl
  Linked-unique head [] (f ∷ fs) free h k = let clash = sym h ∙ k.0 in cc clash
  Linked-unique head (e ∷ es) [] free h k = let clash = sym k ∙ h.0 in cc clash
  Linked-unique head (e ∷ es) (f ∷ fs) free h k =
      let same : event_digest ext e ≡ event_digest ext f = some_injective _ _ (sym h.0 ∙ k.0) in
      let it : e ≡ f = free.0.0 same in
      let rest =
        Linked-unique e.columns.previous_event_sha256 es fs (All-map (λ x p. p.1) es free.1) h.1
          (subst (λ (x : Event). Linked x.columns.previous_event_sha256 fs) (sym it) k.1) in
      rw (it, rest) refl

  events_onto-eq :
      (rows : List LedgerRow) (past : List Event) → events_onto rows past ≡ history rows ++ past
  events_onto-eq [] past = refl
  events_onto-eq (r ∷ rs) past = elim (Option-cases (ext.decode r.event_json)) [
    | inl e ↦ rw e (events_onto-eq rs past)
    | inr (ev, e) ↦
        let mid : history rs ++ ev ∷ past ≡ (history rs ++ ev ∷ []) ++ past =
          sym (append-one (history rs) ev past) in
        let last : (history rs ++ ev ∷ []) ++ past ≡ events_onto rs (ev ∷ []) ++ past =
          ap (λ xs. xs ++ past) (sym (events_onto-eq rs (ev ∷ []))) in
        rw e (events_onto-eq rs (ev ∷ past) ∙ mid ∙ last)
  ]

  module _ (operator : String) (store : Option String) where
    verify_rows-Linked :
        (keys : List Key) (head : Option String) (index : ℕ) (rows : List LedgerRow)
        (out : List Entry) (past : List Event)
        → verify_rows ext operator store keys head index rows ≡ ok out
        → Linked head past
        → Linked (digest_after head out) (events_onto rows past)
    unfolding verify_rows
    verify_rows-Linked keys head index [] out past h linked =
        subst (λ xs. Linked (digest_after head xs) past) (ok_injective [] out h) linked
    verify_rows-Linked keys head index (row ∷ rows) out past h linked =
        let (entry, rest, it, h1, h2) =
          verify_rows-cons ext operator store keys head index row rows out h in
        let a = verify_row-Accepted ext operator store keys head index row entry h1 in
        let here : Linked (some entry.digest) (a.event ∷ past) =
          (ap some a.digest, subst (λ x. Linked x past) (sym a.linked) linked) in
        let tail =
          verify_rows-Linked entry.keys (some entry.digest) (suc index) rows rest (a.event ∷ past)
            h2 here in
        rw (it, a.read) tail

    -- the rows up to an entry
    abbrev UpTo : List Key → Option String → ℕ → List LedgerRow → Entry → Type 0
    UpTo keys head index rows x =
        (a : List LedgerRow) × (b : List LedgerRow) × (es : List Entry) × (rows ≡ a ++ b)
        × (verify_rows ext operator store keys head index a ≡ ok es)
        × (digest_after head es ≡ some x.digest)

    first_entry :
        (n : ℕ) (e x : Entry) (es : List Entry)
        → entry_at n (e ∷ es) ≡ some x
        → (e ≡ x) ⊎ ((m : ℕ) × (entry_at m es ≡ some x))
    unfolding entry_at
    first_entry zero e x es at = cc
    first_entry (suc zero) e x es at = inl (some_injective e x at)
    first_entry (suc (suc n)) e x es at = inr (suc n, at)

    verify_rows-at :
        (keys : List Key) (head : Option String) (index : ℕ) (rows : List LedgerRow)
        (out : List Entry) (n : ℕ) (x : Entry)
        → verify_rows ext operator store keys head index rows ≡ ok out
        → entry_at n out ≡ some x
        → UpTo keys head index rows x
    unfolding verify_rows entry_at
    verify_rows-at keys head index [] out n x h at =
        let clash : entry_at n [] ≡ some x =
          subst (λ xs. entry_at n xs ≡ some x) (sym (ok_injective [] out h)) at in
        cc clash
    verify_rows-at keys head index (row ∷ rows) out n x h at =
        let (entry, rest, it, h1, h2) =
          verify_rows-cons ext operator store keys head index row rows out h in
        elim (first_entry n entry x rest (subst (λ xs. entry_at n xs ≡ some x) it at)) [
          | inl same ↦
              (row ∷ [], rows, entry ∷ [], refl, rw h1 refl, ap (λ (y : Entry). some y.digest) same)
          | inr (m, later) ↦
              let (a, b, es, split, ran, there) =
                verify_rows-at entry.keys (some entry.digest) (suc index) rows rest m x h2 later in
              (row ∷ a, b, entry ∷ es, ap (λ xs. row ∷ xs) split, rw (h1, ran) refl, there)
        ]

module _ (ext : External) (operator operator2 : String) where
  -- Two accepted ledgers that end in one digest have the same events, if no two different events
  -- of theirs have one digest.
  pub same_head-history :
      (expected expected2 : Option String) (rows rows2 : List LedgerRow)
      (store store2 : Option String) (out out2 : List Entry)
      → CollisionFree ext (history ext rows) (history ext rows2)
      → verify_events ext operator expected rows ≡ ok (store, out)
      → verify_events ext operator2 expected2 rows2 ≡ ok (store2, out2)
      → digest_after none out ≡ digest_after none out2
      → history ext rows ≡ history ext rows2
  same_head-history expected expected2 rows rows2 store store2 out out2 free h k same =
      let s = verify_events-Started ext operator expected rows store out h in
      let t = verify_events-Started ext operator2 expected2 rows2 store2 out2 k in
      let a = verify_rows-Linked ext operator store s.keys none 0 rows out [] s.ran refl in
      let b = verify_rows-Linked ext operator2 store2 t.keys none 0 rows2 out2 [] t.ran refl in
      Linked-unique ext (digest_after none out2) (history ext rows) (history ext rows2) free
        (subst (λ x. Linked ext x (history ext rows)) same a) b

  events_onto-append :
      (a b : List LedgerRow) (past : List Event)
      → events_onto ext (a ++ b) past ≡ events_onto ext b (events_onto ext a past)
  events_onto-append [] b past = refl
  events_onto-append (r ∷ a) b past = events_onto-append a b (push (ext.decode r.event_json) past)

  named_entry :
      (i : ℤ) (out : List Entry) (sha : String)
      → has_digest sha (entry_at_int i out) ≡ true
      → (n : ℕ) × (x : Entry) × (entry_at n out ≡ some x) × (x.digest ≡ sha)
  named_entry (negsuc n) out sha h = cc
  named_entry (pos n) out sha h = elim (Option-cases (entry_at n out)) [
    | inl e ↦ let clash : false ≡ true = rw e at h in cc clash
    | inr (x, e) ↦ (n, x, e, (str_eq_iff x.digest sha).0 (rw e at h))
  ]

  -- A ledger that is accepted with the head of an accepted ledger as its pinned head has the events
  -- of that ledger as its oldest events, if no two different events of theirs have one digest.
  pub pinned-history :
      (expected expected2 : Option String) (older rows : List LedgerRow)
      (store store2 : Option String) (es out : List Entry) (pin : PinnedHead)
      → CollisionFree ext (history ext rows) (history ext older)
      → verify_events ext operator expected older ≡ ok (store, es)
      → digest_after none es ≡ some pin.event_sha256
      → verify_events ext operator2 expected2 rows ≡ ok (store2, out)
      → check_pin out (some pin) ≡ ok tt
      → (newer : List Event) × (history ext rows ≡ newer ++ history ext older)
  unfolding check_pin
  pinned-history expected expected2 older rows store store2 es out pin free h head k pinned =
      let s = verify_events-Started ext operator expected older store es h in
      let t = verify_events-Started ext operator2 expected2 rows store2 out k in
      let (_, p1) =
        demand->>-ok (not (ltbℤ pin.sequence (pos 1)) && not (ltbℤ (pos (length out)) pin.sequence))
          _ _ pinned in
      let (n, x, at, named) = named_entry pin.sequence out pin.event_sha256 (demand-ok _ _ p1) in
      let (a, b, es2, split, ran, there) =
        verify_rows-at ext operator2 store2 t.keys none 0 rows out n x t.ran at in
      let la : Linked ext (digest_after none es2) (history ext a) =
        verify_rows-Linked ext operator2 store2 t.keys none 0 a es2 [] ran refl in
      let lo : Linked ext (digest_after none es) (history ext older) =
        verify_rows-Linked ext operator store s.keys none 0 older es [] s.ran refl in
      let heads : digest_after none es2 ≡ digest_after none es = there ∙ ap some named ∙ sym head in
      let parts : history ext rows ≡ history ext b ++ history ext a =
        ap (history ext) split ∙ events_onto-append a b [] ∙ events_onto-eq ext b (history ext a) in
      let free2 : CollisionFree ext (history ext a) (history ext older) =
        All-right _ (history ext b) (history ext a)
          (subst (λ xs. CollisionFree ext xs (history ext older)) parts free) in
      let same : history ext a ≡ history ext older =
        Linked-unique ext (digest_after none es) (history ext a) (history ext older) free2
          (subst (λ y. Linked ext y (history ext a)) heads la) lo in
      (history ext b, parts ∙ ap (λ xs. history ext b ++ xs) same)
