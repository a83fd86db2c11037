-- ===== src/Authority/Chain/Keys/Table.antt =====
-- The dictionary of keys in the chain of authority/ledger.py: lookups behind an assignment to one
-- entry and behind a new entry, and the changes that an event may make.
use imprint.Base.{
  str_eq_sym, String, ◌≡◌, refl, sym, ap, ◌∙◌, inl, inr, true, false, ◌||◌, some, List, [], ◌∷◌,
  ◌++◌, arith, str_eq, str_eq_iff, if◌then◌else◌, Bool-cases, mem, distinct,
}
use imprint.Base.{str_eq_refl, inl, inr}
use mathlib.Core.List.{Memᴰ}
use mathlib.Core.Path.{subst}
use imprint.Ontology.Fault.{ok, >>=-eq-ok}
use imprint.Authority.Chain.{External, Blob, Certificate, Key, Option, KeyKind}
use imprint.Authority.Chain.Keys.{
  new_chain_key, chain_key, raw_ok, blob_ok, is_active, key_id_of, get_key, has_key_id, update_key,
}

pub get_key-id : (id : String) (ks : List Key) (k : Key) → get_key id ks ≡ some k → key_id_of k ≡ id
unfolding get_key
get_key-id id [] k h = cc
get_key-id id (x ∷ ks) k h = ground (arith, str_eq_iff (key_id_of x) id, get_key-id id ks k)

get_key-append :
    (id : String) (ks : List Key) (new k : Key)
    → get_key id ks ≡ some k
    → get_key id (ks ++ new ∷ []) ≡ some k
unfolding get_key
get_key-append id [] new k h = cc
get_key-append id (x ∷ ks) new k h = ground (arith, get_key-append id ks new k)

pub some_injective {ℓ} : {A : Type ℓ} (a b : A) → some a ≡ some b → a ≡ b
some_injective a b h = ground arith

get_key-update_key :
    (id target : String) (f : Key → Key) (ks : List Key) (k : Key)
    → ((x : Key) → (f x).certified ≡ x.certified)
    → get_key id ks ≡ some k
    → get_key id (update_key target f ks) ≡ some (if str_eq id target then f k else k)
unfolding get_key update_key
get_key-update_key id target f [] k same h = cc
get_key-update_key id target f (x ∷ ks) k same h =
    let first : key_id_of (f x) ≡ key_id_of x = ap (λ (c : Certificate). c.key_id) (same x) in
    let rest = get_key-update_key id target f ks k same in
    elim (Bool-cases (str_eq (key_id_of x) id)) [
      | inl e ↦
          let at : key_id_of x ≡ id = (str_eq_iff (key_id_of x) id).0 e in
          let it : x ≡ k = some_injective x k (rw e at h) in
          elim (Bool-cases (str_eq (key_id_of x) target)) [
            | inl t ↦ rw (sym it, sym at, t, first, str_eq_refl) refl
            | inr t ↦ rw (sym it, sym at, t, str_eq_refl) refl
          ]
      | inr e ↦ elim (Bool-cases (str_eq (key_id_of x) target)) [
        | inl t ↦ rw (t, first, e) (rest (rw e at h))
        | inr t ↦ rw (t, e) (rest (rw e at h))
      ]
    ]

pub data Change : List Key → List Key → Type 0 where
  kept : {ks : List Key} → Change ks ks
  added :
      {ks : List Key} (k : Key)
      → has_key_id (key_id_of k) ks ≡ false
      → is_active k ≡ true
      → Change ks (ks ++ k ∷ [])
  ended :
      {ks : List Key} (k : Key) (f : Key → Key)
      → get_key (key_id_of k) ks ≡ some k
      → is_active k ≡ true
      → ((x : Key) → (f x).certified ≡ x.certified)
      → ((x : Key) → (f x).kind ≡ x.kind)
      → ((x : Key) → is_active (f x) ≡ false)
      → Change ks (update_key (key_id_of k) f ks)
  both : {ks ls ms : List Key} → Change ks ls → Change ls ms → Change ks ms

-- A key that is not active stays as it is.
pub Change-frozen :
    {ks ls : List Key} (id : String) (k : Key)
    → Change ks ls
    → get_key id ks ≡ some k
    → is_active k ≡ false
    → get_key id ls ≡ some k
Change-frozen id k kept h off = h
Change-frozen id k (added {ks} new fresh on) h off = get_key-append id ks new k h
Change-frozen id k (ended {ks} t f there on same kind stop) h off =
    elim (Bool-cases (str_eq id (key_id_of t))) [
      | inl e ↦
          let at : id ≡ key_id_of t = (str_eq_iff id (key_id_of t)).0 e in
          let it : k ≡ t = some_injective k t (sym (rw at at h) ∙ there) in
          let clash : is_active k ≡ true = rw it on in cc
      | inr e ↦ rw (get_key-update_key id (key_id_of t) f ks k same h, e) refl
    ]
Change-frozen id k (both {ks} {ls} {ms} a b) h off =
    Change-frozen id k b (Change-frozen id k a h off) off

-- A key keeps its certificate and its kind.
pub Change-certified :
    {ks ls : List Key} (id : String) (k : Key)
    → Change ks ls
    → get_key id ks ≡ some k
    → (l : Key) × (get_key id ls ≡ some l) × (l.certified ≡ k.certified) × (l.kind ≡ k.kind)
Change-certified id k kept h = (k, h, refl, refl)
Change-certified id k (added {ks} new fresh on) h = (k, get_key-append id ks new k h, refl, refl)
Change-certified id k (ended {ks} t f there on same kind stop) h =
    elim (Bool-cases (str_eq id (key_id_of t))) [
      | inl e ↦
          (f k, rw (get_key-update_key id (key_id_of t) f ks k same h, e) refl, same k, kind k)
      | inr e ↦ (k, rw (get_key-update_key id (key_id_of t) f ks k same h, e) refl, refl, refl)
    ]
Change-certified id k (both {ks} {ls} {ms} a b) h =
    let (l, at, c, d) = Change-certified id k a h in
    let (m, at2, c2, d2) = Change-certified id l b at in (m, at2, c2 ∙ c, d2 ∙ d)

-- the identities, in their order
abbrev pub ids : List Key → List String
ids [] = []
ids (k ∷ ks) = key_id_of k ∷ ids ks

pub ids-update_key :
    (id : String) (f : Key → Key) (ks : List Key)
    → ((x : Key) → (f x).certified ≡ x.certified)
    → ids (update_key id f ks) ≡ ids ks
unfolding update_key
ids-update_key id f [] same = refl
ids-update_key id f (k ∷ ks) same = elim (Bool-cases (str_eq (key_id_of k) id)) [
  | inl e ↦ rw (e, ids-update_key id f ks same, same k) refl
  | inr e ↦ rw (e, ids-update_key id f ks same) refl
]

pub fresh-mem : (id : String) (ks : List Key) → has_key_id id ks ≡ mem id (ids ks)
unfolding has_key_id get_key
fresh-mem id [] = refl
fresh-mem id (k ∷ ks) =
    rw (str_eq_sym (key_id_of k) id) (elim (Bool-cases (str_eq id (key_id_of k))) [
      | inl e ↦ rw e refl
      | inr e ↦ rw e (fresh-mem id ks)
    ])

mem-append :
    (y : String) (ys : List String) (x : String) → mem y (ys ++ x ∷ []) ≡ (mem y ys || str_eq y x)
mem-append y [] x = ground arith
mem-append y (z ∷ zs) x = ground (arith, mem-append y zs x)

distinct-append :
    (x : String) (xs : List String)
    → mem x xs ≡ false
    → distinct xs ≡ true
    → distinct (xs ++ x ∷ []) ≡ true
distinct-append x [] h k = refl
distinct-append x (y ∷ ys) h k =
    ground (arith, str_eq_sym x y, mem-append y ys x, distinct-append x ys)

ids-append : (ks : List Key) (k : Key) → ids (ks ++ k ∷ []) ≡ ids ks ++ key_id_of k ∷ []
ids-append [] k = refl
ids-append (x ∷ ks) k = ap (λ xs. key_id_of x ∷ xs) (ids-append ks k)

-- No identity is certified twice.
pub Change-distinct :
    {ks ls : List Key} → Change ks ls → distinct (ids ks) ≡ true → distinct (ids ls) ≡ true
Change-distinct kept h = h
Change-distinct (added {ks} k fresh on) h =
    rw (ids-append ks k)
      (distinct-append (key_id_of k) (ids ks) (sym (fresh-mem (key_id_of k) ks) ∙ fresh) h)
Change-distinct (ended {ks} k f there on same kind stop) h =
    rw (ids-update_key (key_id_of k) f ks same) h
Change-distinct (both a b) h = Change-distinct b (Change-distinct a h)

pub new_chain_key-eq :
    (ext : External) (c : Certificate) (blob : Option Blob) (kind : KeyKind) (k : Key)
    → new_chain_key ext c blob kind ≡ ok k
    → k ≡ chain_key c blob kind
unfolding new_chain_key
new_chain_key-eq ext c blob kind k h =
    let (_, _, h1) =
      >>=-eq-ok (raw_ok ext c.public_key_fingerprint (ext.b64decode c.public_key_b64)) _ h in
    let (_, _, h2) = >>=-eq-ok (blob_ok blob) _ h1 in
    let it : ok (chain_key c blob kind) ≡ ok k = h2 in ground arith

mem-ids : (k : Key) (ks : List Key) → Memᴰ k ks → mem (key_id_of k) (ids ks) ≡ true
mem-ids k [] m = elim m [ ]
mem-ids k (x ∷ ks) (Memᴰ.head e) = rw (e, str_eq_refl (key_id_of x)) refl
mem-ids k (x ∷ ks) (Memᴰ.tail m) = rw (mem-ids k ks m) (ground arith)

distinct-tail : (x : String) (xs : List String) → distinct (x ∷ xs) ≡ true → distinct xs ≡ true
distinct-tail x xs h = ground arith

-- a key that stands in the table is the one that its identity names
pub get_key-Mem :
    (k : Key) (ks : List Key)
    → distinct (ids ks) ≡ true
    → Memᴰ k ks
    → get_key (key_id_of k) ks ≡ some k
unfolding get_key
get_key-Mem k [] h m = elim m [ ]
get_key-Mem k (x ∷ ks) h (Memᴰ.head e) = rw (e, str_eq_refl (key_id_of x)) refl
get_key-Mem k (x ∷ ks) h (Memᴰ.tail m) = elim (Bool-cases (str_eq (key_id_of x) (key_id_of k))) [
  | inl e ↦
      let at : key_id_of x ≡ key_id_of k = (str_eq_iff (key_id_of x) (key_id_of k)).0 e in
      let there : mem (key_id_of x) (ids ks) ≡ true = rw at (mem-ids k ks m) in
      let clash : false ≡ true = rw there at h in cc
  | inr e ↦ rw e (get_key-Mem k ks (distinct-tail (key_id_of x) (ids ks) h) m)
]

pub ended_at :
    (id : String) (k : Key) (f : Key → Key) (keys : List Key)
    → get_key id keys ≡ some k
    → is_active k ≡ true
    → ((x : Key) → (f x).certified ≡ x.certified)
    → ((x : Key) → (f x).kind ≡ x.kind)
    → ((x : Key) → is_active (f x) ≡ false)
    → Change keys (update_key id f keys)
ended_at id k f keys there on same kind stop =
    let at = get_key-id id keys k there in
    subst (λ x. Change keys (update_key x f keys)) at
      (ended k f (subst (λ x. get_key x keys ≡ some k) (sym at) there) on same kind stop)
