-- ===== src/Memory/Laws.antt =====
-- The documented behaviour of S3, for the service in memory.
use rawdb.Base.{
  ◌≡◌, refl, sym, subst, ap, ◌∙◌, inl, inr, ◌⊎◌, Bool, true, false, Option, none, some, Bool-cases,
  and_true, List, [], ◌∷◌, ◌++◌, Text, codes, ◌==◌, eq_iff, eq_sound, length, strip_prefix, lookup,
  insert, lookup-insert, Any, All, Result, ok, err, if◌then◌else◌, arith,
}
use rawdb.S3.{S3Error, IsStore, Bytes, Object, ObjectInfo, quoted, not_found, precondition_failed}
use rawdb.Scanner.Pair.{strip_prefix_sound, strip_prefix-append}
use rawdb.Memory.{
  Memory, object_of, object, stored, etag_is, unmatched, get_body, put_if, remove, remove_all,
  copy_from, under, memory,
}

init : Text → Text
init [] = []
init (x ∷ []) = []
init (x ∷ y ∷ r) = x ∷ init (y ∷ r)

init-append : (s : Text) → init (s ++ 34 ∷ []) ≡ s
unfolding init
init-append [] = refl
init-append (x ∷ []) = refl
init-append (x ∷ y ∷ r) = ap (λ t. x ∷ t) (init-append (y ∷ r))

quoted_injective : (a b : Text) → quoted a ≡ quoted b → a ≡ b
quoted_injective a b h = sym (init-append a) ∙ ap init (tail_of h) ∙ init-append b
  where
    tail : Text → Text
    tail [] = []
    tail (x ∷ s) = s

    tail_of : quoted a ≡ quoted b → a ++ 34 ∷ [] ≡ b ++ 34 ∷ []
    tail_of q = ap tail q

pub get_body_sound :
    (k : Text) (old : Option Object) (b : Bytes) (e : Option Text)
    → get_body k old ≡ ok (b, e)
    → (o : Object) × (old ≡ some o) × (o.body ≡ b) × (o.etag ≡ e)
unfolding get_body
get_body_sound k none b e h = cc
get_body_sound k (some o) b e h = (o, refl, ap (λ q. q.0) (inside h), ap (λ q. q.1) (inside h))
  where
    inside :
        {p q : Bytes × Option Text}
        → ◌≡◌ {A = Result S3Error (Bytes × Option Text)} (ok p) (ok q)
        → p ≡ q
    inside w = cc

pub get_body-absent :
    (k j : Text) (old : Option Object) → get_body k old ≡ err (not_found j) → old ≡ none
unfolding get_body
get_body-absent k j none h = refl
get_body-absent k j (some o) h = cc

some_injective : {a b : Object} → some a ≡ some b → a ≡ b
some_injective h = cc

object_sound : (x : Option Bytes) (o : Object) → object x ≡ some o → o ≡ object_of o.body
object_sound none o h = cc
object_sound (some b) o h =
    sym (some_injective h) ∙ ap (λ (p : Object). object_of p.body) (some_injective h)

pub stored-size :
    (k : Text) (s : Memory) (o : Object) → stored k s ≡ some o → o.size ≡ length o.body
unfolding stored
stored-size k s o h = ap (λ (p : Object). p.size) (object_sound (lookup k s) o h)

pub stored-etag : (k : Text) (s : Memory) (o : Object) → stored k s ≡ some o → o.etag ≡ some o.body
unfolding stored
stored-etag k s o h = ap (λ (p : Object). p.etag) (object_sound (lookup k s) o h)

if-object :
    (c : Bool) (b : Bytes) (x : Option Bytes)
    → object (if c then some b else x) ≡ (if c then some (object_of b) else object x)
if-object true b x = refl
if-object false b x = refl

pub stored-insert :
    (k j : Text) (b : Bytes) (s : Memory)
    → stored j (insert k b s) ≡ (if k == j then some (object_of b) else stored j s)
unfolding stored
stored-insert k j b s = ap object (lookup-insert k j b s) ∙ if-object (k == j) b (lookup j s)

pub lookup-remove :
    (k j : Text) (s : Memory) → stored j (remove k s) ≡ (if k == j then none else stored j s)
unfolding lookup stored remove
lookup-remove k j [] = ground arith
lookup-remove k j ((i, o) ∷ s) =
    ground (arith, eq_iff k i, eq_iff i j, eq_iff k j, lookup-remove k j s)

abbrev PutFacts : Text → Bytes → Memory → Bool → Text → Memory → Type 0
PutFacts k b s ready e s' = (ready ≡ true) × (e ≡ b) × (s' ≡ insert k b s)

pub put_if-ok :
    (k : Text) (b : Bytes) (s : Memory) (ready : Bool) (e : Text) (s' : Memory)
    → put_if k b s ready ≡ (ok e, s')
    → PutFacts k b s ready e s'
unfolding put_if
put_if-ok k b s true e s' h = (refl, sym (inside (ap (λ q. q.0) h)), sym (ap (λ q. q.1) h))
  where
    inside : {p q : Text} → ◌≡◌ {A = Result S3Error Text} (ok p) (ok q) → p ≡ q
    inside w = cc
put_if-ok k b s false e s' h = absurd (no (ap (λ q. q.0) h))
  where
    no : ◌≡◌ {A = Result S3Error Text} (err precondition_failed) (ok e) → ⊥
    no w = cc

pub put_if-stored :
    (k : Text) (b : Bytes) (s : Memory) (ready : Bool) (e : Text) (s' : Memory)
    → put_if k b s ready ≡ (ok e, s')
    → (o : Object) × (o.body ≡ b)
      × (o.etag ≡ some e)
      × ((j : Text) → stored j s' ≡ (if k == j then some o else stored j s))
put_if-stored k b s ready e s' h =
    let (r, i, q) = put_if-ok k b s ready e s' h in
    (object_of b, refl, ap (λ t. some t) (sym i), λ j. ap (stored j) q ∙ stored-insert k j b s)

pub put_if-refused :
    (k : Text) (b : Bytes) (s : Memory) (ready : Bool) (s' : Memory)
    → put_if k b s ready ≡ (err precondition_failed, s')
    → s' ≡ s
unfolding put_if
put_if-refused k b s true s' h = absurd (no (ap (λ q. q.0) h))
  where
    no : ◌≡◌ {A = Result S3Error Text} (ok b) (err precondition_failed) → ⊥
    no w = cc
put_if-refused k b s false s' h = sym (ap (λ q. q.1) h)

pub etag_is_sound :
    (m : Text) (old : Option Object)
    → etag_is (quoted m) old ≡ true
    → (o : Object) × (old ≡ some o) × (o.etag ≡ some m)
unfolding etag_is
etag_is_sound m none h = cc
etag_is_sound m (some o) h = go o.etag refl h
  where
    go :
        (t : Option Text)
        → o.etag ≡ t
        → (elim t [ none ↦ false | some e ↦ quoted m == quoted e ]) ≡ true
        → (p : Object) × (some o ≡ some p) × (p.etag ≡ some m)
    go none w q = cc
    go (some e) w q = (
      o,
      refl,
      w ∙ ap (λ t. some t) (sym (quoted_injective m e (eq_sound (quoted m) (quoted e) q))),
    )

pub unmatched_sound : (q : Text) (old : Option Object) → unmatched (some q) old ≡ true → old ≡ none
unfolding unmatched
unmatched_sound q none h = refl
unmatched_sound q (some o) h = cc

pub under_complete :
    (p k : Text) (s : Memory) (o : Object)
    → stored (p ++ k) s ≡ some o
    → Any (λ i. i.key ≡ p ++ k) (under p s)
unfolding lookup stored under
under_complete p k [] o h = cc
under_complete p k ((j, x) ∷ s) o h = elim (Bool-cases (j == p ++ k)) [
  | inl e ↦ here (eq_sound j (p ++ k) e)
  | inr e ↦ further (strip_prefix p j) refl (under_complete p k s o (rw (e, stored, lookup) at h))
]
  where
    cell : ObjectInfo
    cell = record { key = j; size = length x; etag = some x; last_modified = none }

    here : j ≡ p ++ k → Any (λ i. i.key ≡ p ++ k) (under p ((j, x) ∷ s))
    here e = rw (ap (strip_prefix p) e ∙ strip_prefix-append p k, under) (inl e)

    further :
        (r : Option Text)
        → strip_prefix p j ≡ r
        → Any (λ i. i.key ≡ p ++ k) (under p s)
        → Any (λ i. i.key ≡ p ++ k) (elim r [ none ↦ under p s | some t ↦ cell ∷ under p s ])
    further none e a = a
    further (some r) e a = inr a

pub copy_from-ok :
    (a b : Text) (old : Option Object) (s s' : Memory)
    → copy_from a b old s ≡ (ok tt, s')
    → (o : Object) × (old ≡ some o) × (s' ≡ insert b o.body s)
unfolding copy_from
copy_from-ok a b none s s' h = absurd (no (ap (λ q. q.0) h))
  where
    no : ◌≡◌ {A = Result S3Error (Unit {0})} (err (not_found a)) (ok tt) → ⊥
    no w = cc
copy_from-ok a b (some o) s s' h = (o, refl, sym (ap (λ q. q.1) h))

eq_false : (k j : Text) → ¬ (k ≡ j) → (k == j) ≡ false
eq_false k j n = elim (Bool-cases (k == j)) [ inl e ↦ absurd (n (eq_sound k j e)) | inr e ↦ e ]

pub same_ok : {E A : Type 0} {a b : A} → ◌≡◌ {A = Result E A} (ok a) (ok b) → a ≡ b
same_ok h = cc

pub lookup-remove_all :
    (ks : List Text) (j : Text) (s : Memory)
    → (Any (λ k. k ≡ j) ks → stored j (remove_all ks s) ≡ none)
      × (¬ Any (λ k. k ≡ j) ks → stored j (remove_all ks s) ≡ stored j s)
unfolding remove_all
lookup-remove_all [] j s = (λ a. absurd a, λ n. refl)
lookup-remove_all (k ∷ ks) j s =
    let (none_of, same) = lookup-remove_all ks j s in
    (
      λ a. elim a [
        | inl e ↦ lookup-remove k j (remove_all ks s) ∙ ground (arith, eq_iff k j, e)
        | inr r ↦ lookup-remove k j (remove_all ks s) ∙ ground (arith, none_of r)
      ],
      λ n.
          lookup-remove k j (remove_all ks s)
          ∙ rw (eq_false k j (λ e. n (inl e))) (same (λ a. n (inr a))),
    )

pub under_sound : (p : Text) (s : Memory) → All (λ i. (k : Text) × (i.key ≡ p ++ k)) (under p s)
unfolding under
under_sound p [] = tt
under_sound p ((j, x) ∷ s) = go (strip_prefix p j) refl (under_sound p s)
  where
    go :
        (r : Option Text)
        → strip_prefix p j ≡ r
        → All (λ i. (k : Text) × (i.key ≡ p ++ k)) (under p s)
        → All (λ i. (k : Text) × (i.key ≡ p ++ k)) (under p ((j, x) ∷ s))
    go none e a = rw (under, e) a
    go (some k) e a = rw (under, e) ((k, strip_prefix_sound p j k e), a)

unfoldable pub memory-IsStore : IsStore memory
unfolding memory
memory-IsStore = record {
  contents = λ s k. stored k s;
  head_sound = λ k s i h. same_ok h;
  get_sound = λ k s b e h. get_body_sound k (stored k s) b e h;
  get_absent = λ k j s h. get_body-absent k j (stored k s) h;
  list_sound = λ p s l h.
      subst (λ z. All (λ i. (k : Text) × (i.key ≡ p ++ k)) z) (same_ok h) (under_sound p s);
  list_complete = λ p k s l o h q.
      subst (λ z. Any (λ i. i.key ≡ p ++ k) z) (same_ok h) (under_complete p k s o q);
  put_sound = λ k b m n s s' e h. put_if-stored k b s _ e s' h;
  put_matched = λ k b m e n s s' h.
      let (r, i, j) = put_if-ok k b s _ e s' h in etag_is_sound m (stored k s) (and_true _ _ r).0;
  put_created = λ k b e s s' h.
      let (r, i, j) = put_if-ok k b s _ e s' h in unmatched_sound (codes "*") (stored k s) r;
  put_refused = λ k b m n s s' h j. ap (stored j) (put_if-refused k b s _ s' h);
  copy_sound = λ a b s s' h.
      let (o, i, q) = copy_from-ok a b (stored a s) s s' h in
      (
        object_of o.body,
        (λ p. (o, i, refl, sym (stored-size a s o i))),
        λ j. ap (stored j) q ∙ stored-insert b j o.body s,
      );
  delete_sound = λ k s s' h j. sym (ap (λ q. stored j q.1) h) ∙ lookup-remove k j s;
  delete_objects_sound = λ ks failed s s' h j.
      subst
        (λ z.
          (Any (λ k. k ≡ j) ks → stored j z ≡ none ⊎ Any (λ k. k ≡ j) failed)
          × (¬ Any (λ k. k ≡ j) ks → stored j z ≡ stored j s))
        (ap (λ q. q.1) h)
        (let (gone, same) = lookup-remove_all ks j s in ((λ a. inl (gone a)), same));
}
