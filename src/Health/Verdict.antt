-- ===== src/Health/Verdict.antt =====
-- What the status and the reasons of a health report say.
use imprint.Base.{
  String, ◌≡◌, refl, ◌∙◌, Bool, true, false, ◌||◌, List, [], ◌∷◌, arith, str_eq, str_eq_iff, mem,
  distinct, text_lt, sort_by, insert_by, IsOrdered, sort_by-IsOrdered, text_lt_asym, Bool-cases, ℤ,
  length, ◌≤◌, ◌↔◌, inl, ap, sym, suc, inr, length-sort_by,
}
use imprint.Health.Inputs.{HealthInputs}
use imprint.Health.{
  status_code, conditions, raised, unique, evaluate_health, Status, status_of, green,
  measured_pending, red, exit_code,
}

module _ (lt : String → String → Bool) where
  mem-insert_by :
      (s x : String) (ys : List String) → mem s (insert_by lt x ys) ≡ (str_eq s x || mem s ys)
  unfolding insert_by
  mem-insert_by s x [] = refl
  mem-insert_by s x (y ∷ ys) = ground (arith, mem-insert_by s x ys)

  mem-sort_by : (s : String) (xs : List String) → mem s (sort_by lt xs) ≡ mem s xs
  unfolding sort_by
  mem-sort_by s [] = refl
  mem-sort_by s (x ∷ xs) = mem-insert_by s x (sort_by lt xs) ∙ ground (arith, mem-sort_by s xs)

  distinct-insert_by :
      (x : String) (ys : List String)
      → mem x ys ≡ false
      → distinct ys ≡ true
      → distinct (insert_by lt x ys) ≡ true
  unfolding insert_by
  distinct-insert_by x [] h k = refl
  distinct-insert_by x (y ∷ ys) h k =
      ground (arith, distinct-insert_by x ys, mem-insert_by y x ys, str_eq_iff x y, str_eq_iff y x)

  distinct-sort_by : (xs : List String) → distinct xs ≡ true → distinct (sort_by lt xs) ≡ true
  unfolding sort_by
  distinct-sort_by [] h = refl
  distinct-sort_by (x ∷ xs) h =
      distinct-insert_by x (sort_by lt xs) (ground (arith, mem-sort_by x xs))
        (ground (arith, distinct-sort_by xs))

mem-unique : (s : String) (xs : List String) → mem s (unique xs) ≡ mem s xs
mem-unique s [] = refl
mem-unique s (x ∷ xs) = ground (arith, mem-unique s xs, mem-unique x xs, str_eq_iff s x)

distinct-unique : (xs : List String) → distinct (unique xs) ≡ true
distinct-unique [] = refl
distinct-unique (x ∷ xs) = ground (arith, distinct-unique xs)

-- The reasons come in the order of their texts, each of them once.
pub reasons-sorted :
    (v : HealthInputs)
    → IsOrdered text_lt (evaluate_health v).degraded_reasons
      × (distinct (evaluate_health v).degraded_reasons ≡ true)
unfolding evaluate_health
reasons-sorted v = (
  sort_by-IsOrdered text_lt text_lt_asym (unique (raised (conditions v))),
  distinct-sort_by text_lt (unique (raised (conditions v)))
      (distinct-unique (raised (conditions v))),
)

unique-[] : (xs : List String) → unique xs ≡ [] → xs ≡ []
unique-[] [] h = refl
unique-[] (x ∷ xs) h = elim (Bool-cases (mem x (unique xs))) [
  | inl e ↦
      let rest : unique xs ≡ [] = sym (rw e refl) ∙ h in
      let clash : false ≡ true = (sym (ap (mem x) rest)) ∙ e in cc clash
  | inr e ↦ let clash : x ∷ unique xs ≡ [] = sym (rw e refl) ∙ h in cc clash
]

sort_by-[] : (lt : String → String → Bool) (xs : List String) → sort_by lt xs ≡ [] → xs ≡ []
sort_by-[] lt [] h = refl
sort_by-[] lt (x ∷ xs) h =
    let n : length (sort_by lt (x ∷ xs)) ≡ 0 = ap length h in
    let m : suc (length xs) ≡ 0 = sym (length-sort_by lt (x ∷ xs)) ∙ n in ground (arith, m)

status_of-green : (xs : List String) → status_of xs ≡ green → xs ≡ []
status_of-green [] h = refl
status_of-green (x ∷ xs) h = cc

status-exit_code : (s : Status) → (status_code s ≡ 0 ↔ s ≡ green)
status-exit_code green = (λ h. refl, λ h. refl)
status-exit_code red = (λ h. ground (arith, h), λ h. cc)

status-le : (s : Status) → status_code s ≤ 1
status-le green = ground arith
status-le red = ground arith

-- A report is green exactly where it names no reason, and the exit code of a green report is 0, of
-- any other 1.
pub green_iff :
    (v : HealthInputs)
    → ((evaluate_health v).status ≡ green ↔ (evaluate_health v).degraded_reasons ≡ [])
      × (exit_code (evaluate_health v) ≡ 0 ↔ (evaluate_health v).status ≡ green)
      × (exit_code (evaluate_health v) ≤ 1)
unfolding evaluate_health sort_by
green_iff v =
    let reasons = raised (conditions v) in
    (
      (
        λ h.
            let none : reasons ≡ [] = status_of-green reasons h in
            ap (λ rs. sort_by text_lt (unique rs)) none,
        λ h. ap status_of (unique-[] reasons (sort_by-[] text_lt (unique reasons) h)),
      ),
      status-exit_code (status_of reasons),
      status-le (status_of reasons),
    )

conditions-ignore :
    (v : HealthInputs) (depth age retained : ℤ)
    → measured_pending v ≡ true
    → conditions (record v {
      spool_depth = depth;
      oldest_spool_age_seconds = age;
      acknowledged_retained_spool_depth = retained;
    })
      ≡ conditions v
unfolding conditions
conditions-ignore v depth age retained h = simp h

-- Where the pending work is measured apart from the acknowledged copies that are kept, those copies
-- change neither the status nor the reasons, whatever their number and age.
pub acknowledged-ignored :
    (v : HealthInputs) (depth age retained : ℤ)
    → measured_pending v ≡ true
    → let w = record v {
      spool_depth = depth;
      oldest_spool_age_seconds = age;
      acknowledged_retained_spool_depth = retained;
    } in
      ((evaluate_health w).status ≡ (evaluate_health v).status)
      × ((evaluate_health w).degraded_reasons ≡ (evaluate_health v).degraded_reasons)
unfolding evaluate_health
acknowledged-ignored v depth age retained h =
    let same : conditions (record v {
      spool_depth = depth;
      oldest_spool_age_seconds = age;
      acknowledged_retained_spool_depth = retained;
    })
        ≡ conditions v =
      conditions-ignore v depth age retained h in
    (ap (λ cs. status_of (raised cs)) same, ap (λ cs. sort_by text_lt (unique (raised cs))) same)
