-- ===== src/Ontology/Consent/Interval.antt =====
-- `consent_authorizes` of ontology/operator.py: what an authorization rests on.
use mathlib.Core.Path.{subst}
use imprint.Base.{
  ℕ, ◌≤◌, ◌<◌, String, ◌≡◌, refl, sym, ◌∙◌, ◌↔◌, inl, inr, Bool, true, false, Option, none, some,
  arith, str_eq_iff, Bool-cases, mem,
}
use imprint.Time.{Stamp}
use imprint.Ontology.Consent.{
  Grant, Times, read_time, read_times, consent_ok, before, Horizon, unlimited, until,
  overflow_error, horizon, answer, within, both, covers, checked, known_request, consent_authorizes,
}

-- a time before the end of a retention
abbrev pub Retained : Horizon → ℕ → Type 0
Retained unlimited t = Unit {0}
Retained (until end) t = t < end
Retained overflow_error t = ⊥

abbrev pub Before : Option Stamp → ℕ → Type 0
Before none t = Unit {0}
Before (some end) t = t < end.instant

-- what an authorization rests on
pub record Authorized (g : Grant) (source_class purpose operation at : String) : Type 0 where
  pub times : Times
  pub now : Stamp
  pub read : read_times g ≡ some times
  pub read_now : read_time at ≡ some now
  pub valid : consent_ok g times ≡ true
  pub source : g.source_class ≡ source_class
  pub for_purpose : mem purpose g.purposes ≡ true
  pub for_operation : mem operation g.allowed_operations ≡ true
  pub started : times.start.instant ≤ now.instant
  pub not_ended : Before times.end now.instant
  pub not_revoked : Before times.revoked now.instant
  pub retained : Retained (horizon g.retention times.start) now.instant

before-Before : (t : ℕ) (o : Option Stamp) → before t o ≡ true → Before o t
before-Before t none h = tt
before-Before t (some end) h = ground (arith, h)

Before-before : (t : ℕ) (o : Option Stamp) → Before o t → before t o ≡ true
Before-before t none h = refl
Before-before t (some end) h = ground (arith, h)

both-true :
    (b : Bool) (t : ℕ) (h : Horizon) → both b (within t h) ≡ answer true → (b ≡ true) × Retained h t
both-true true t unlimited h = (refl, tt)
both-true false t unlimited h = cc
both-true true t (until end) h = (refl, ground (arith, h))
both-true false t (until end) h = cc
both-true b t overflow_error h = cc

Retained-within : (t : ℕ) (h : Horizon) → Retained h t → both true (within t h) ≡ answer true
Retained-within t unlimited r = refl
Retained-within t (until end) r = ground (arith, r)
Retained-within t overflow_error r = elim r [ ]

module _ (g : Grant) (source_class purpose operation at : String) where
  covers-Authorized :
      (t : Times) (now : Stamp)
      → read_times g ≡ some t
      → read_time at ≡ some now
      → consent_ok g t ≡ true
      → covers g t source_class purpose operation now.instant ≡ true
      → Retained (horizon g.retention t.start) now.instant
      → Authorized g source_class purpose operation at
  unfolding covers
  covers-Authorized t now e f k c r = record {
    times = t;
    now = now;
    read = e;
    read_now = f;
    valid = k;
    source = ground (arith, c, str_eq_iff g.source_class source_class);
    for_purpose = ground (arith, c);
    for_operation = ground (arith, c);
    started = ground (arith, c);
    not_ended = before-Before now.instant t.end (ground (arith, c));
    not_revoked = before-Before now.instant t.revoked (ground (arith, c));
    retained = r;
  }

  Authorized-covers :
      (a : Authorized g source_class purpose operation at)
      → covers g a.times source_class purpose operation a.now.instant ≡ true
  unfolding covers
  Authorized-covers a = ground (
    arith,
    (str_eq_iff g.source_class source_class).1 a.source,
    a.for_purpose,
    a.for_operation,
    a.started,
    Before-before a.now.instant a.times.end a.not_ended,
    Before-before a.now.instant a.times.revoked a.not_revoked,
  )

  checked-Authorized :
      (t : Option Times) (now : Option Stamp)
      → read_times g ≡ t
      → read_time at ≡ now
      → checked g source_class purpose operation t now ≡ answer true
      → Authorized g source_class purpose operation at
  checked-Authorized none now e f h = cc
  checked-Authorized (some t) none e f h = cc
  checked-Authorized (some t) (some now) e f h = elim (Bool-cases (consent_ok g t)) [
    | inr k ↦ let clash : answer false ≡ answer true = sym (rw k refl) ∙ h in cc clash
    | inl k ↦
        let whole : both (covers g t source_class purpose operation now.instant)
              (within now.instant (horizon g.retention t.start))
            ≡ answer true =
          sym (rw k refl) ∙ h in
        let (c, r) =
          both-true (covers g t source_class purpose operation now.instant) now.instant
            (horizon g.retention t.start) whole in
        covers-Authorized t now e f k c r
  ]

-- A request is authorized exactly by a grant that is present and valid, names the source class, the
-- purpose and the operation, has started and not ended, is not revoked, and is within its retention;
-- and the source class, the purpose and the operation are of the registered ones.
pub authorizes_iff :
    (g : Grant) (source_class purpose operation at : String)
    → consent_authorizes (some g) source_class purpose operation at ≡ answer true
      ↔ (known_request source_class purpose operation ≡ true)
        × Authorized g source_class purpose operation at
unfolding consent_authorizes
authorizes_iff g source_class purpose operation at = (
  λ h. elim (Bool-cases (known_request source_class purpose operation)) [
    | inl k ↦ (
      k,
      checked-Authorized g source_class purpose operation at (read_times g) (read_time at) refl refl
          (sym (rw k refl) ∙ h),
    )
    | inr k ↦ let clash : answer false ≡ answer true = sym (rw k refl) ∙ h in cc clash
  ],
  λ h.
      rw
        (
          h.0,
          h.1.read,
          h.1.read_now,
          h.1.valid,
          Authorized-covers g source_class purpose operation at h.1,
        )
        (Retained-within h.1.now.instant (horizon g.retention h.1.times.start) h.1.retained),
)

Before-earlier : (o : Option Stamp) (t u : ℕ) → t ≤ u → Before o u → Before o t
Before-earlier none t u h k = tt
Before-earlier (some end) t u h k = ground (arith, h, k)

Retained-earlier : (o : Horizon) (t u : ℕ) → t ≤ u → Retained o u → Retained o t
Retained-earlier unlimited t u h k = tt
Retained-earlier (until end) t u h k = ground (arith, h, k)
Retained-earlier overflow_error t u h k = k

Authorized-between :
    (g : Grant) (source_class purpose operation first last middle : String) (now : Stamp)
    → (a : Authorized g source_class purpose operation first)
    → (b : Authorized g source_class purpose operation last) → read_time middle ≡ some now
    → a.now.instant ≤ now.instant
    → now.instant ≤ b.now.instant
    → Authorized g source_class purpose operation middle
Authorized-between g source_class purpose operation first last middle now a b e h k =
    let same : a.times ≡ b.times =
      (let e : some a.times ≡ some b.times = sym a.read ∙ b.read in cc e) in
    record {
      times = b.times;
      now = now;
      read = b.read;
      read_now = e;
      valid = b.valid;
      source = b.source;
      for_purpose = b.for_purpose;
      for_operation = b.for_operation;
      started =
          subst (λ (t : Times). t.start.instant ≤ now.instant) same (ground (arith, a.started, h));
      not_ended = Before-earlier b.times.end now.instant b.now.instant k b.not_ended;
      not_revoked = Before-earlier b.times.revoked now.instant b.now.instant k b.not_revoked;
      retained =
          Retained-earlier (horizon g.retention b.times.start) now.instant b.now.instant k
            b.retained;
    }

same_now : (a : Option Stamp) (s t : Stamp) → a ≡ some s → a ≡ some t → s.instant ≡ t.instant
same_now a s t h k = let e : some s ≡ some t = sym h ∙ k in cc e

-- A grant that authorizes a request at two times authorizes it at every time between.
pub authorizes-between :
    (g : Grant) (source_class purpose operation first middle last : String) (t u v : Stamp)
    → read_time first ≡ some t
    → read_time middle ≡ some u
    → read_time last ≡ some v
    → t.instant ≤ u.instant
    → u.instant ≤ v.instant
    → consent_authorizes (some g) source_class purpose operation first ≡ answer true
    → consent_authorizes (some g) source_class purpose operation last ≡ answer true
    → consent_authorizes (some g) source_class purpose operation middle ≡ answer true
authorizes-between g source_class purpose operation first middle last t u v r1 r2 r3 le1 le2 h k =
    let (known, a) = (authorizes_iff g source_class purpose operation first).0 h in
    let b = ((authorizes_iff g source_class purpose operation last).0 k).1 in
    let ea : a.now.instant ≡ t.instant = same_now (read_time first) a.now t a.read_now r1 in
    let eb : b.now.instant ≡ v.instant = same_now (read_time last) b.now v b.read_now r3 in
    (authorizes_iff g source_class purpose operation middle).1 (
      known,
      Authorized-between g source_class purpose operation first last middle u a b r2
          (ground (arith, ea, le1)) (ground (arith, eb, le2)),
    )
