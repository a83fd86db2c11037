-- ===== src/Authority/Chain/Verify/Prefix.antt =====
-- The rows of the authority ledger in two parts: what `verify_authority_chain` finds of the older
-- rows does not depend on the newer ones.
use imprint.Base.{
  ℕ, suc, ◌+◌, String, ◌≡◌, refl, sym, ap, ◌∙◌, Option, some, List, [], ◌∷◌, ◌++◌, arith, length,
}
use mathlib.Core.Path.{subst}
use imprint.Ontology.Fault.{ok}
use imprint.Authority.Chain.{LedgerRow, Key, External}
use imprint.Authority.Chain.Verify.{Entry, verify_rows, keys_after, digest_after}
use imprint.Authority.Chain.Verify.Steps.{verify_rows-cons}

plus_zero : (n : ℕ) → n ≡ n + 0
plus_zero n = omega arith

plus_suc : (n m : ℕ) → suc n + m ≡ n + suc m
plus_suc n m = omega arith

module _ (ext : External) (operator : String) (store : Option String) where
  pub verify_rows-split :
      (keys : List Key) (head : Option String) (index : ℕ) (older newer : List LedgerRow)
      (out : List Entry)
      → verify_rows ext operator store keys head index (older ++ newer) ≡ ok out
      → (es : List Entry) × (fs : List Entry) × (out ≡ es ++ fs)
        × (verify_rows ext operator store keys head index older ≡ ok es)
        × (verify_rows ext operator store
              (keys_after keys es)
              (digest_after head es)
              (index + length older)
              newer
            ≡ ok fs)
  unfolding verify_rows
  verify_rows-split keys head index [] newer out h = (
    [],
    out,
    refl,
    refl,
    subst (λ n. verify_rows ext operator store keys head n newer ≡ ok out) (plus_zero index) h,
  )
  verify_rows-split keys head index (row ∷ older) newer out h =
      let (entry, rest, it, h1, h2) =
        verify_rows-cons ext operator store keys head index row (older ++ newer) out h in
      let (es, fs, at, h3, h4) =
        verify_rows-split entry.keys (some entry.digest) (suc index) older newer rest h2 in
      (
        entry ∷ es,
        fs,
        it ∙ ap (λ xs. entry ∷ xs) at,
        rw (h1, h3) refl,
        subst
            (λ n.
              verify_rows ext operator store (keys_after entry.keys es)
                (digest_after (some entry.digest) es) n newer
              ≡ ok fs)
            (plus_suc index (length older)) h4,
      )

  pub verify_rows-join :
      (keys : List Key) (head : Option String) (index : ℕ) (older newer : List LedgerRow)
      (es fs : List Entry)
      → verify_rows ext operator store keys head index older ≡ ok es
      → verify_rows ext operator store
          (keys_after keys es)
          (digest_after head es)
          (index + length older)
          newer
        ≡ ok fs
      → verify_rows ext operator store keys head index (older ++ newer) ≡ ok (es ++ fs)
  unfolding verify_rows
  verify_rows-join keys head index [] newer [] fs h k =
      subst (λ n. verify_rows ext operator store keys head n newer ≡ ok fs) (sym (plus_zero index))
        k
  verify_rows-join keys head index [] newer (x ∷ es) fs h k = cc
  verify_rows-join keys head index (row ∷ older) newer es fs h k =
      let (entry, rest, it, h1, h2) =
        verify_rows-cons ext operator store keys head index row older es h in
      let k1 =
        subst
          (λ (xs : List Entry).
            verify_rows ext operator store (keys_after keys xs) (digest_after head xs)
              (index + length (row ∷ older)) newer
            ≡ ok fs)
          it k in
      let k2 =
        subst
          (λ n.
            verify_rows ext operator store (keys_after entry.keys rest)
              (digest_after (some entry.digest) rest) n newer
            ≡ ok fs)
          (sym (plus_suc index (length older))) k1 in
      let tail =
        verify_rows-join entry.keys (some entry.digest) (suc index) older newer rest fs h2 k2 in
      rw (h1, tail, it) refl
