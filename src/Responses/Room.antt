-- ===== src/Responses/Room.antt =====
-- backend/src/cache/responses.rs: what storing an entry does to the map, and what a lookup finds.
use rawdb.Base.{
  ℕ, ◌+◌, ◌≡◌, ◌<◌, ◌≤◌, ◌⊎◌, inl, inr, refl, sym, subst, ap, ◌∙◌, Bool, true, false, not, ◌&&◌,
  Bool-cases, Option, none, some, [], ◌∷◌, Text, ◌==◌, eq_sound, eqb, eqb_iff, leb, All, All-insert,
  any, length, lookup, insert, if◌then◌else◌, arith,
}
use rawdb.Responses.{max_entries, Cached, Entries, if_current, look_up, contains_key, store_entry}

length-insert :
    (key : Text) (c : Cached) (m : Entries)
    → (length (insert key c m) ≤ length m + 1)
      × (contains_key key m ≡ true → length (insert key c m) ≡ length m)
unfolding insert any
length-insert key c [] = (omega arith, λ e. cc)
length-insert key c (slot ∷ m) = ground (arith, length-insert key c m)

pub length-store_entry :
    (key : Text) (c : Cached) (m : Entries)
    → length m ≤ max_entries
    → length (store_entry key c m) ≤ max_entries
unfolding store_entry insert
length-store_entry key c m h =
    elim (Bool-cases (leb max_entries (length m) && not (contains_key key m))) [
      | inl e ↦ rw (store_entry, e) (omega arith)
      | inr e ↦ rw (store_entry, e) (room (contains_key key m) refl e)
    ]
  where
    room :
        (b : Bool)
        → contains_key key m ≡ b
        → (leb max_entries (length m) && not b) ≡ false
        → length (insert key c m) ≤ max_entries
    room true p e = omega (arith, (length-insert key c m).1 p, h)
    room false p e = omega (arith, (length-insert key c m).0, spare e)
      where
        spare : (leb max_entries (length m) && true) ≡ false → length m < max_entries
        spare q = ground arith

pub store_entry-All :
    (P : Text × Cached → Type 0) (key : Text) (c : Cached) (m : Entries)
    → P (key, c)
    → All P m
    → All P (store_entry key c m)
unfolding store_entry insert
store_entry-All P key c m p a =
    elim (Bool-cases (leb max_entries (length m) && not (contains_key key m))) [
      | inl e ↦ rw (store_entry, e) (p, tt)
      | inr e ↦ rw (store_entry, e) (All-insert P key c m p a)
    ]

pub lookup-All :
    (P : Text → Cached → Type 0) (key : Text) (c : Cached) (m : Entries)
    → All (λ e. P e.0 e.1) m
    → lookup key m ≡ some c
    → P key c
unfolding lookup
lookup-All P key c [] a h = cc
lookup-All P key c (slot ∷ m) a h = elim (Bool-cases (slot.0 == key)) [
  | inl e ↦ subst (λ k. P k c) (eq_sound slot.0 key e) (subst (P slot.0) (taken (rw e at h)) a.0)
  | inr e ↦ lookup-All P key c m a.1 (rw e at h)
]
  where
    taken : {x : Cached} → ◌≡◌ {A = Option Cached} (some x) (some c) → x ≡ c
    taken w = cc

pub look_up-hit :
    (key : Text) (s : ℕ) (m : Entries) (c : Cached)
    → look_up key s m ≡ some c
    → (lookup key m ≡ some c) × (c.stamp ≡ s)
unfolding look_up
look_up-hit key s m c h = go (lookup key m) h
  where
    go : (o : Option Cached) → if_current s o ≡ some c → (o ≡ some c) × (c.stamp ≡ s)
    go none e = cc
    go (some x) e = checked (eqb_iff x.stamp s).0 (Bool-cases (eqb x.stamp s)) e
      where
        none_some : ◌≡◌ {A = Option Cached} none (some c) → ⊥
        none_some w = cc

        checked :
            (eqb x.stamp s ≡ true → x.stamp ≡ s)
            → (eqb x.stamp s ≡ true) ⊎ (eqb x.stamp s ≡ false)
            → (if eqb x.stamp s then some x else none) ≡ some c
            → (some x ≡ some c) × (c.stamp ≡ s)
        checked f (inl q) e =
            let same = rw q at e in
            (same, ap (λ o. elim o [ none ↦ s | some y ↦ y.stamp ]) (sym same) ∙ f q)
        checked f (inr q) e = absurd (none_some (rw q at e))
