-- ===== src/Compiler/Disk/Places.antt =====
-- compiler/spool.py: two paths are the same.
use imprint.Base.{ℕ, ◌≡◌, refl, ap, ◌∙◌, true, List, [], ◌∷◌, arith, str_eq, str_eq_iff, codes_eq}
use imprint.Compiler.Disk.{Place, same_place}

codes_eq_refl : (cs : List ℕ) → codes_eq cs cs ≡ true
codes_eq_refl [] = refl
codes_eq_refl (c ∷ cs) = ground (arith, codes_eq_refl cs)

pub same_place_refl : (p : Place) → same_place p p ≡ true
same_place_refl p =
    let n : str_eq p.node p.node ≡ true = (str_eq_iff p.node p.node).1 refl in
    rw n (codes_eq_refl p.event)

codes_eq_iff : (as' bs : List ℕ) → codes_eq as' bs ≡ true → as' ≡ bs
codes_eq_iff [] [] h = refl
codes_eq_iff [] (b ∷ bs) h = cc
codes_eq_iff (a ∷ as') [] h = cc
codes_eq_iff (a ∷ as') (b ∷ bs) h =
    let tail : codes_eq as' bs ≡ true = ground arith in
    let t : as' ≡ bs = codes_eq_iff as' bs tail in let e : a ≡ b = ground arith in rw (e, t) refl

pub same_place-eq : (p q : Place) → same_place p q ≡ true → p ≡ q
same_place-eq p q h =
    let n : str_eq p.node q.node ≡ true = ground arith in
    let e : codes_eq p.event q.event ≡ true = ground arith in
    let a : p.node ≡ q.node = (str_eq_iff p.node q.node).0 n in
    let b : p.event ≡ q.event = codes_eq_iff p.event q.event e in
    ap (λ x. record { node = x; event = p.event }) a
    ∙ ap (λ x. record { node = q.node; event = x }) b
