-- ===== src/Admin/Clear.antt =====
-- backend/src/s3.rs, `delete_prefix`: what is left afterwards.
use rawdb.Base.{
  ℕ, zero, suc, ◌+◌, ◌-◌, ◌≡◌, ◌↔◌, refl, sym, ap, ◌∙◌, inl, inr, ◌⊎◌, ◌≢◌, Bool, true, false, ◌||◌,
  Option, none, some, Option-cases, Bool-cases, Result-cases, List, [], ◌∷◌, ◌++◌, Text, ◌==◌,
  eq_iff, any, any_iff, Any, Any-append_left, Any-append_right, All, length, length-append, Result,
  ok, err, arith,
}
use rawdb.S3.{S3, S3Error, ObjectInfo, Object, IsStore}
use rawdb.Admin.{chunk_size, keys, flush, chunks, delete_chunks, delete_prefix}

abbrev has : Text → List Text → Bool
has j ks = any (λ k. k == j) ks

in_chunks : Text → List (List Text) → Bool
in_chunks j [] = false
in_chunks j (c ∷ cs) = has j c || in_chunks j cs

total : List (List Text) → ℕ
total [] = 0
total (c ∷ cs) = length c + total cs

has-snoc : (j k : Text) (ks : List Text) → has j (ks ++ k ∷ []) ≡ (has j ks || (k == j))
unfolding any
has-snoc j k [] = ground arith
has-snoc j k (x ∷ ks) = ground (arith, has-snoc j k ks)

in_chunks-flush : (j : Text) (c : List Text) → in_chunks j (flush c) ≡ has j c
unfolding in_chunks any
in_chunks-flush j [] = refl
in_chunks-flush j (k ∷ ks) = ground arith

in_chunks-chunks :
    (j : Text) (room : ℕ) (c ks : List Text)
    → in_chunks j (chunks room c ks) ≡ (has j c || has j ks)
unfolding in_chunks chunks any
in_chunks-chunks j room c [] = in_chunks-flush j c ∙ ground arith
in_chunks-chunks j zero c (k ∷ ks) = ground (arith, in_chunks-chunks j (chunk_size - 1) (k ∷ []) ks)
in_chunks-chunks j (suc room) c (k ∷ ks) =
    ground (arith, in_chunks-chunks j room (c ++ k ∷ []) ks, has-snoc j k c)

total-flush : (c : List Text) → total (flush c) ≡ length c
unfolding total
total-flush [] = refl
total-flush (k ∷ ks) = omega arith

total-chunks : (room : ℕ) (c ks : List Text) → total (chunks room c ks) ≡ length c + length ks
unfolding total chunks
total-chunks room c [] = omega (arith, total-flush c)
total-chunks zero c (k ∷ ks) = omega (arith, total-chunks (chunk_size - 1) (k ∷ []) ks)
total-chunks (suc room) c (k ∷ ks) =
    omega (arith, total-chunks room (c ++ k ∷ []) ks, length-append c (k ∷ []))

has-keys : (j : Text) (os : List ObjectInfo) → Any (λ o. o.key ≡ j) os → has j (keys os) ≡ true
unfolding any
has-keys j [] a = absurd a
has-keys j (o ∷ os) (inl e) = ground (arith, eq_iff o.key j, e)
has-keys j (o ∷ os) (inr a) = ground (arith, has-keys j os a)

length-keys : (os : List ObjectInfo) → length (keys os) ≡ length os
length-keys [] = refl
length-keys (o ∷ os) = omega (arith, length-keys os)

-- either a key holds nothing, or it is among the keys `failed`
abbrev pub IsGone : Option Object → Text → List Text → Type 0
IsGone o j failed = o ≡ none ⊎ Any (λ k. k ≡ j) failed

-- the keys for which the answers to the requests report an error, none of which the program reads
chunk_errors : {St : Type 0} → S3 St → List (List Text) → St → List Text
chunk_errors s3 [] s = []
chunk_errors s3 (c ∷ cs) s =
    let out = s3.delete_objects c s in
    elim out.0 [ err e ↦ [] | ok failed ↦ failed ++ chunk_errors s3 cs out.1 ]

unfoldable pub delete_errors : {St : Type 0} → S3 St → Text → St → List Text
unfolding chunk_errors
delete_errors s3 prefix s = elim (s3.list_objects prefix s) [
  | err e ↦ []
  | ok objs ↦ chunk_errors s3 (chunks chunk_size [] (keys objs)) s
]

or_true : (a b : Bool) → (a || b) ≡ true → b ≡ false → a ≡ true
or_true true b h e = refl
or_true false b h e = cc

or_false : (a b : Bool) → (a || b) ≡ false → (a ≡ false) × (b ≡ false)
or_false true b h = cc
or_false false b h = (refl, h)

module _ {St : Type 0} {s3 : S3 St} (st : IsStore s3) where
  -- what one request leaves of a key
  objects-IsGone :
      (ks failed : List Text) (s s' : St)
      → s3.delete_objects ks s ≡ (ok failed, s')
      → (j : Text)
      → (has j ks ≡ true → IsGone (st.contents s' j) j failed)
        × (has j ks ≡ false → st.contents s' j ≡ st.contents s j)
  objects-IsGone ks failed s s' h j = (
    (λ e. (st.delete_objects_sound ks failed s s' h j).0 (here.0 e)),
    λ e. (st.delete_objects_sound ks failed s s' h j).1 (λ a. differs e (here.1 a)),
  )
    where
      here : (any (λ k. k == j) ks ≡ true) ↔ Any (λ k. k ≡ j) ks
      here = any_iff (λ k. k == j) (λ k. k ≡ j) ks (λ k. eq_iff k j)

      differs : {b : Bool} → b ≡ false → b ≡ true → ⊥
      differs p q = cc

  -- what a sequence of requests leaves
  abbrev IsCleared : List (List Text) → List Text → St → St → Type 0
  IsCleared cs failed s s' =
      (j : Text)
      → (in_chunks j cs ≡ true → IsGone (st.contents s' j) j failed)
        × (in_chunks j cs ≡ false → st.contents s' j ≡ st.contents s j)

  delete_chunks-in_chunks :
      (cs : List (List Text)) (n m : ℕ) (s s' : St)
      → delete_chunks s3 cs n s ≡ (ok m, s')
      → IsCleared cs (chunk_errors s3 cs s) s s' × (m ≡ n + total cs)
  unfolding delete_chunks in_chunks total chunk_errors
  delete_chunks-in_chunks [] n m s s' h = (
    λ j. ((λ e. absurd (no e)), λ e. sym (ap (λ q. st.contents q.1 j) h)),
    omega (arith, count (ap (λ q. q.0) h)),
  )
    where
      no : false ≡ true → ⊥
      no w = cc

      count : ◌≡◌ {A = Result S3Error ℕ} (ok n) (ok m) → n ≡ m
      count w = cc
  delete_chunks-in_chunks (c ∷ cs) n m s s' h =
      step (λ t. delete_chunks-in_chunks cs (n + length c) m t s') (s3.delete_objects c s).0
        (s3.delete_objects c s).1 refl h
    where
      step :
          ((t : St)
            → delete_chunks s3 cs (n + length c) t ≡ (ok m, s')
            → IsCleared cs (chunk_errors s3 cs t) t s' × (m ≡ n + length c + total cs))
          → (r : Result S3Error (List Text)) (t : St) → s3.delete_objects c s ≡ (r, t)
          → (elim r [ err e ↦ (err e, t) | ok u ↦ delete_chunks s3 cs (n + length c) t ])
            ≡ (ok m, s')
          → IsCleared
              (c ∷ cs)
              (elim r [ err e ↦ [] | ok failed ↦ failed ++ chunk_errors s3 cs t ])
              s
              s'
            × (m ≡ n + (length c + total cs))
      step ih (err e) t d q = absurd (no (ap (λ x. x.0) q))
        where
          no : ◌≡◌ {A = Result S3Error ℕ} (err e) (ok m) → ⊥
          no w = cc
      step ih (ok failed) t d q =
          let (rest, count) = ih t q in
          (λ j. (gone rest j (Bool-cases (in_chunks j cs)), same rest j), omega (arith, count))
        where
          more : List Text
          more = chunk_errors s3 cs t

          later : {o : Option Object} (j : Text) → IsGone o j more → IsGone o j (failed ++ more)
          later j (inl e) = inl e
          later j (inr a) = inr (Any-append_right (λ k. k ≡ j) failed more a)

          earlier :
              (j : Text)
              → st.contents s' j ≡ st.contents t j
              → IsGone (st.contents t j) j failed
              → IsGone (st.contents s' j) j (failed ++ more)
          earlier j w (inl e) = inl (w ∙ e)
          earlier j w (inr a) = inr (Any-append_left (λ k. k ≡ j) failed more a)

          gone :
              IsCleared cs more t s'
              → (j : Text) → (in_chunks j cs ≡ true) ⊎ (in_chunks j cs ≡ false)
              → (has j c || in_chunks j cs) ≡ true
              → IsGone (st.contents s' j) j (failed ++ more)
          gone rest j (inl b) e = later j ((rest j).0 b)
          gone rest j (inr b) e =
              earlier j ((rest j).1 b)
                ((objects-IsGone c failed s t d j).0 (or_true (has j c) (in_chunks j cs) e b))

          same :
              IsCleared cs more t s'
              → (j : Text) → (has j c || in_chunks j cs) ≡ false
              → st.contents s' j ≡ st.contents s j
          same rest j e =
              let (a, b) = or_false (has j c) (in_chunks j cs) e in
              (rest j).1 b ∙ (objects-IsGone c failed s t d j).1 a

  -- Between `s` and `t`, the objects under the prefix are deleted, except those for which the service
  -- reports an error, and every other object is as it was.
  abbrev pub IsWiped : Text → St → St → Type 0
  IsWiped prefix s t =
      ((k : Text) → IsGone (st.contents t (prefix ++ k)) (prefix ++ k) (delete_errors s3 prefix s))
      × ((j : Text) → ((k : Text) → prefix ++ k ≢ j) → st.contents t j ≡ st.contents s j)

  -- If `delete_prefix` succeeds, each key under the prefix holds no object any more, unless an answer of the
  -- service reports an error for that key, which the code does not read; each object that was not listed
  -- is as it was, those outside the prefix among them; and the answer is the number of the listed objects, the
  -- failed ones included.
  pub delete_prefix-contents :
      (prefix : Text) (n : ℕ) (s s' : St)
      → delete_prefix s3 prefix s ≡ (ok n, s')
      → (objects : List ObjectInfo) × (s3.list_objects prefix s ≡ ok objects)
        × (n ≡ length objects)
        × ((k : Text)
            → IsGone (st.contents s' (prefix ++ k)) (prefix ++ k) (delete_errors s3 prefix s))
        × ((j : Text)
            → any (λ k. k == j) (keys objects) ≡ false
            → st.contents s' j ≡ st.contents s j)
        × ((j : Text) → ((k : Text) → prefix ++ k ≢ j) → st.contents s' j ≡ st.contents s j)
  unfolding delete_prefix any delete_errors
  delete_prefix-contents prefix n s s' h = elim (Result-cases (s3.list_objects prefix s)) [
    | inr (x, e) ↦ absurd (no (ap (λ q. q.0) (rw (e, delete_prefix) at h)))
    | inl (objects, e) ↦
        let (left, count) =
          delete_chunks-in_chunks (chunks chunk_size [] (keys objects)) 0 n s s'
            (rw (e, delete_prefix) at h) in
        (
          objects,
          e,
          omega (arith, count, total-chunks chunk_size [] (keys objects), length-keys objects),
          λ k.
              rw (delete_errors, e)
                (gone objects e left k (Option-cases (st.contents s (prefix ++ k)))),
          unlisted objects left,
          λ j out.
              unlisted objects left j (outside objects j out (st.list_sound prefix s objects e)),
        )
  ]
    where
      no : {x : S3Error} → ◌≡◌ {A = Result S3Error ℕ} (err x) (ok n) → ⊥
      no w = cc

      all_chunks : List ObjectInfo → List (List Text)
      all_chunks objects = chunks chunk_size [] (keys objects)

      unlisted :
          (objects : List ObjectInfo)
          → IsCleared (all_chunks objects) (chunk_errors s3 (all_chunks objects) s) s s'
          → (j : Text) → any (λ k. k == j) (keys objects) ≡ false
          → st.contents s' j ≡ st.contents s j
      unlisted objects left j f = (left j).1 (in_chunks-chunks j chunk_size [] (keys objects) ∙ f)

      gone :
          (objects : List ObjectInfo)
          → s3.list_objects prefix s ≡ ok objects
          → IsCleared (all_chunks objects) (chunk_errors s3 (all_chunks objects) s) s s'
          → (k : Text)
          → (st.contents s (prefix ++ k) ≡ none)
            ⊎ ((o : Object) × (st.contents s (prefix ++ k) ≡ some o))
          → IsGone
              (st.contents s' (prefix ++ k))
              (prefix ++ k)
              (chunk_errors s3 (all_chunks objects) s)
      gone objects e left k (inl a) =
          elim (Bool-cases (in_chunks (prefix ++ k) (all_chunks objects))) [
            | inl b ↦ (left (prefix ++ k)).0 b
            | inr b ↦ inl ((left (prefix ++ k)).1 b ∙ a)
          ]
      gone objects e left k (inr (o, a)) = (left (prefix ++ k)).0 (
          in_chunks-chunks (prefix ++ k) chunk_size [] (keys objects)
          ∙ has-keys (prefix ++ k) objects (st.list_complete prefix k s objects o e a))

      outside :
          (os : List ObjectInfo) (j : Text)
          → ((k : Text) → prefix ++ k ≢ j)
          → All (λ o. (k : Text) × (o.key ≡ prefix ++ k)) os
          → any (λ k. k == j) (keys os) ≡ false
      outside [] j out a = refl
      outside (o ∷ os) j out ((k, e), a) = elim (Bool-cases (o.key == j)) [
        | inl q ↦ absurd (out k (sym e ∙ (eq_iff o.key j).0 q))
        | inr q ↦ rw (q, any) (outside os j out a)
      ]

  pub delete_prefix-IsWiped :
      (prefix : Text) (n : ℕ) (s t : St)
      → delete_prefix s3 prefix s ≡ (ok n, t)
      → IsWiped prefix s t
  delete_prefix-IsWiped prefix n s t h =
      let (objects, l, count, gone, same, out) = delete_prefix-contents prefix n s t h in
      (gone, out)
