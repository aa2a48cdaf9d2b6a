-- ===== src/Users/Attempt.antt =====
-- backend/src/users.rs: one round of `cas_update`, between the read and the write.
use rawdb.Base.{
  ℕ, ◌≡◌, refl, sym, ap, ◌∙◌, ◌⊎◌, inl, inr, Bool, true, Option, none, some, Bool-cases, List, [],
  ◌∷◌, map, Text, ◌==◌, Result, Result-cases, ok, err, if◌then◌else◌,
}
use rawdb.Error.{AppError}
use rawdb.S3.{
  S3, S3Error, Bytes, Object, IsStore, not_found as absent_key, other as s3_failure,
  precondition_failed,
}
use rawdb.Cache.{Cache, replace_users, bad_users}
use rawdb.State.{Pod}
use rawdb.SyncTick.{Domain, users, bump}
use rawdb.Users.{
  UsersFile, UsersError, Codec, Request, get, put, Round, finished, again, users_key, to_db_row,
  same_users, if_match, if_none_match, parse_users, read_with_etag, mirrored, settle_write,
  write_users, cas_round,
}

ok_not_err : {x : AppError} → ◌≡◌ {A = Result AppError (Unit {0})} (ok tt) (err x) → ⊥
ok_not_err h = cc

module _ {St : Type 0} {s3 : S3 St} (st : IsStore s3) (codec : Codec) where
  -- the users file at a state of the store, where a missing one is empty
  abbrev pub IsCurrent : St → UsersFile → Type 0
  IsCurrent s file =
      ((st.contents s users_key ≡ none) × (file ≡ []))
      ⊎ ((o : Object) × (st.contents s users_key ≡ some o) × (parse_users codec o.body ≡ some file))

  -- The service gives each object an ETag, and two contents of the file with one ETag are equal.
  abbrev pub HasEtags : Type 0
  HasEtags =
      (s : St) (a : Object) → st.contents s users_key ≡ some a → (e : Text) × (a.etag ≡ some e)

  abbrev pub EtagsIdentify : Type 0
  EtagsIdentify =
      (s t : St) (a b : Object) (e : Text)
      → st.contents s users_key ≡ some a
      → st.contents t users_key ≡ some b
      → a.etag ≡ some e
      → b.etag ≡ some e
      → a.body ≡ b.body

  abbrev IsReadAt : St → Result UsersError (UsersFile × Option Text) → Type 0
  IsReadAt s (err x) = Unit
  IsReadAt s (ok (file, none)) = (st.contents s users_key ≡ none) × (file ≡ [])
  IsReadAt s (ok (file, some e)) =
      (o : Object) × (st.contents s users_key ≡ some o)
      × (o.etag ≡ some e)
      × (parse_users codec o.body ≡ some file)

  module _ (conditional : Bool) (tick : Domain → Bytes) (others : Request → St → St) where
    parsed_at :
        HasEtags
        → (s : St) (b : Bytes) (etag : Option Text) → s3.get_bytes users_key s ≡ ok (b, etag)
        → (r : Option UsersFile) → parse_users codec b ≡ r
        → IsReadAt s (elim r [ none ↦ err UsersError.other | some file ↦ ok (file, etag) ])
    parsed_at he s b etag h none q = tt
    parsed_at he s b (some e) h (some file) q =
        let (o, i, j, k) = st.get_sound users_key s b (some e) h in
        (o, i, k, ap (parse_users codec) j ∙ q)
    parsed_at he s b none h (some file) q =
        let (o, i, j, k) = st.get_sound users_key s b none h in let (e, w) = he s o i in cc

    read_with_etag-IsReadAt :
        HasEtags → (s : St) → IsReadAt s (read_with_etag s3 codec conditional tick others s)
    unfolding read_with_etag
    read_with_etag-IsReadAt he s = elim (Result-cases (s3.get_bytes users_key s)) [
      | inl ((b, etag), e) ↦ rw (e, read_with_etag) (parsed_at he s b etag e _ refl)
      | inr (absent_key k, e) ↦ rw (e, read_with_etag) (st.get_absent users_key k s e, refl)
      | inr (precondition_failed, e) ↦ rw (e, read_with_etag) tt
      | inr (s3_failure, e) ↦ rw (e, read_with_etag) tt
    ]

    -- the update left the file as it was read, and nothing was written
    abbrev pub IsIdle :
        (UsersFile → Result UsersError UsersFile) → UsersFile → Pod St → Pod St → Type 0
    IsIdle mutate next pod pod' =
        (s : St) × (current : UsersFile) × IsCurrent s current
        × (mutate current ≡ ok next)
        × (same_users next current ≡ true)
        × (pod' ≡ record pod { store = s })

    -- At the state `s` of the write the file was `current`; the write replaced it by its update, and
    -- nothing else; the mirror has the rows and the ETag of the new file; and the tick was bumped.
    abbrev pub IsCommit :
        (UsersFile → Result UsersError UsersFile) → UsersFile → Pod St → Pod St → Type 0
    IsCommit mutate next pod pod' =
        (s s' : St) × (current : UsersFile) × (o : Object) × (e : Text) × (c : Cache) × IsCurrent s
          current
        × (mutate current ≡ ok next)
        × (o.body ≡ codec.to_bytes next)
        × (o.etag ≡ some e)
        × ((j : Text) → st.contents s' j ≡ (if users_key == j then some o else st.contents s j))
        × (replace_users (some e) (map to_db_row next) pod.cache ≡ (ok tt, c))
        × (pod' ≡ bump s3 tick (users ∷ []) (record pod { store = s'; cache = c }))

    abbrev pub IsUpdate :
        (UsersFile → Result UsersError UsersFile)
        → Pod St
        → Result UsersError UsersFile × Pod St
        → Type 0
    IsUpdate mutate pod (ok next, pod') =
        IsIdle mutate next pod pod' ⊎ IsCommit mutate next pod pod'
    IsUpdate mutate pod (err x, pod') = (s : St) × (pod' ≡ record pod { store = s })

    abbrev pub IsRound : (UsersFile → Result UsersError UsersFile) → Pod St → Round St → Type 0
    IsRound mutate pod (finished r pod') = IsUpdate mutate pod (r, pod')
    IsRound mutate pod (again pod') = (s : St) × (pod' ≡ record pod { store = s })

    -- the condition of the write holds only if the file is what was read
    put-IsCurrent :
        EtagsIdentify
        → (r s s' : St) (file : UsersFile) (etag : Option Text) (b : Bytes) (e : Text)
        → IsReadAt r (ok (file, etag))
        → s3.put_bytes users_key b (if_match true etag) (if_none_match true etag) s ≡ (ok e, s')
        → IsCurrent s file
    unfolding if_match if_none_match
    put-IsCurrent id r s s' file none b e h k = inl (st.put_created users_key b e s s' k, h.1)
    put-IsCurrent id r s s' file (some m) b e (o, i, j, p) k =
        let (a, u, v) = st.put_matched users_key b m e none s s' k in
        inr (a, u, ap (parse_users codec) (id s r a o m u i v j) ∙ p)

    replace_users-same :
        (etag : Option Text) (rows : List _) (c c' : Cache) (x : AppError)
        → replace_users etag rows c ≡ (err x, c')
        → c' ≡ c
    unfolding replace_users
    replace_users-same etag rows c c' x h = elim (Bool-cases (bad_users rows)) [
      | inl e ↦ sym (ap (λ r. r.1) (rw (e, replace_users) at h))
      | inr e ↦ absurd (ok_not_err (ap (λ r. r.0) (rw (e, replace_users) at h)))
    ]

    write_users-IsRound :
        EtagsIdentify
        → (n : ℕ) (mutate : UsersFile → Result UsersError UsersFile) (r : St) (pod : Pod St)
          (current next : UsersFile) (etag : Option Text)
        → conditional ≡ true
        → IsReadAt r (ok (current, etag))
        → mutate current ≡ ok next
        → IsRound mutate pod (write_users s3 codec conditional tick others n next etag pod)
    unfolding write_users settle_write
    write_users-IsRound id n mutate r pod current next etag c h m = written _ refl
      where
        s : St
        s = others (put n) pod.store

        stored :
            (e : Text) (s' : St)
            → s3.put_bytes users_key
                (codec.to_bytes next)
                (if_match conditional etag)
                (if_none_match conditional etag)
                s
              ≡ (ok e, s')
            → (out : Result AppError (Unit {0}) × Cache)
            → replace_users (some e) (map to_db_row next) pod.cache ≡ out
            → IsRound mutate pod
                (mirrored s3 codec conditional tick others next (record pod { store = s' }) out)
        stored e s' w (ok u, c') q =
            let (o, i, j, k) =
              st.put_sound users_key (codec.to_bytes next) (if_match conditional etag)
                (if_none_match conditional etag) s s' e w in
            inr (
              s,
              s',
              current,
              o,
              e,
              c',
              put-IsCurrent id r s s' current etag (codec.to_bytes next) e h (rw c at w),
              m,
              i,
              j,
              k,
              q,
              refl,
            )
        stored e s' w (err x, c') q = (
          s',
          ap (λ z. record pod { store = s'; cache = z })
              (replace_users-same (some e) (map to_db_row next) pod.cache c' x q),
        )

        written :
            (w : Result S3Error Text × St)
            → s3.put_bytes users_key
                (codec.to_bytes next)
                (if_match conditional etag)
                (if_none_match conditional etag)
                s
              ≡ w
            → IsRound mutate pod (settle_write s3 codec conditional tick others next pod w)
        written (ok e, s') w = stored e s' w _ refl
        written (err precondition_failed, s') w = (s', refl)
        written (err (absent_key k), s') w = (s', refl)
        written (err s3_failure, s') w = (s', refl)

    IsRound-of :
        EtagsIdentify
        → (n : ℕ) (mutate : UsersFile → Result UsersError UsersFile) (s : St) (pod : Pod St)
          (file : UsersFile) (etag : Option Text)
        → conditional ≡ true
        → IsReadAt s (ok (file, etag))
        → (m : Result UsersError UsersFile) → mutate file ≡ m
        → IsRound mutate pod (elim m [
          | err e ↦ finished (err e) (record pod { store = s })
          | ok next ↦
              if same_users next file
              then finished (ok next) (record pod { store = s })
              else write_users s3 codec conditional tick others n next etag
                  (record pod { store = s })
        ])
    IsRound-of id n mutate s pod file etag c h (err x) m = (s, refl)
    IsRound-of id n mutate s pod file etag c h (ok next) m =
        elim (Bool-cases (same_users next file)) [
          | inl e ↦ rw e (inl (s, file, at_read file etag h, m, e, refl))
          | inr e ↦
              rw e
                (write_users-IsRound id n mutate s (record pod { store = s }) file next etag c h m)
        ]
      where
        at_read : (f : UsersFile) (q : Option Text) → IsReadAt s (ok (f, q)) → IsCurrent s f
        at_read f none k = inl k
        at_read f (some e) (o, i, j, p) = inr (o, i, p)

    pub cas_round-IsRound :
        HasEtags
        → EtagsIdentify
        → (n : ℕ) (mutate : UsersFile → Result UsersError UsersFile) (pod : Pod St)
        → conditional ≡ true
        → IsRound mutate pod (cas_round s3 codec conditional tick others n mutate pod)
    unfolding cas_round
    cas_round-IsRound he id n mutate pod c = reads _ (read_with_etag-IsReadAt he s)
      where
        s : St
        s = others (get n) pod.store

        reads :
            (r : Result UsersError (UsersFile × Option Text))
            → IsReadAt s r
            → IsRound mutate pod (elim r [
              | err e ↦ finished (err e) (record pod { store = s })
              | ok (current, etag) ↦ elim (mutate current) [
                | err e ↦ finished (err e) (record pod { store = s })
                | ok next ↦
                    if same_users next current
                    then finished (ok next) (record pod { store = s })
                    else write_users s3 codec conditional tick others n next etag
                        (record pod { store = s })
              ]
            ])
        reads (err x) h = (s, refl)
        reads (ok (file, etag)) h = IsRound-of id n mutate s pod file etag c h _ refl
