-- ===== src/SyncTick/Bump.antt =====
-- Bumping a tick, and a poll that fails half way.
use rawdb.Base.{
  ◌≡◌, ◌≢◌, ◌↔◌, sym, ap, ◌∙◌, subst, Option, none, some, List, Text, eq_refl, Result, ok, err,
}
use rawdb.S3.{S3, S3Error, HeadInfo, IsStore, Bytes, head_info}
use rawdb.State.{TickState, Pod}
use rawdb.SyncTick.{
  Domain, users, sets, key, cell, settle, bump_one, seen_etag, heads, refresh, poll_from, poll_once,
}
use rawdb.SyncTick.Poll.{IsNews, latest, Reported, poll_once-Tells, cell-set_cell, refresh-Reported}

module _ {St : Type 0} (s3 : S3 St) (store : IsStore s3) where
  -- the tick after a successful write
  written_etag :
      (k : Text) (b : Bytes) (s s' : St) (e : Text) (i : Option HeadInfo)
      → s3.put_bytes k b none none s ≡ (ok e, s')
      → s3.head k s' ≡ ok i
      → seen_etag i ≡ some e
  written_etag k b s s' e i h g =
      let (o, body, etag, after) = store.put_sound k b none none s s' e h in
      let here : store.contents s' k ≡ some o = after k ∙ rw (eq_refl k) in
      let info = sym (store.head_sound k s' i g) ∙ ap head_info here in ap seen_etag info ∙ etag

  bump_one-ok :
      (body : Domain → Bytes) (d : Domain) (pod : Pod St) (e : Text) (s' : St)
      → s3.put_bytes (key d) (body d) none none pod.store ≡ (ok e, s')
      → ((bump_one s3 body d pod).store ≡ s') × (cell d (bump_one s3 body d pod).ticks ≡ some e)
  unfolding bump_one
  bump_one-ok body d pod e s' h = (
    ap (λ (q : Result S3Error Text × St). (settle d pod q).store) h,
    ap (λ (q : Result S3Error Text × St). cell d (settle d pod q).ticks) h
        ∙ cell-set_cell d (some e) pod.ticks,
  )

  -- After an instance has bumped a domain, its own poll does not report that domain, and the poll of
  -- any other instance reports it exactly if that instance does not know the new ETag yet.
  pub bump_one-poll_once :
      (body : Domain → Bytes) (d : Domain) (pod : Pod St) (e : Text) (s' : St) (t t' : TickState)
      (changed : List Domain)
      → s3.put_bytes (key d) (body d) none none pod.store ≡ (ok e, s')
      → poll_once s3 (bump_one s3 body d pod).store t ≡ (ok changed, t')
      → (Reported d changed ↔ (cell d t ≢ some e))
        × (cell d (bump_one s3 body d pod).ticks ≡ some e)
        × (cell d t' ≡ some e)
  bump_one-poll_once body d pod e s' t t' changed h p =
      let (moved, known) = bump_one-ok body d pod e s' h in
      let (i, head, told, now) =
        poll_once-Tells s3 s' t t' changed d
          (subst (λ x. poll_once s3 x t ≡ (ok changed, t')) moved p) in
      let etag = written_etag (key d) (body d) pod.store s' e i h head in
      (
        subst (λ n. Reported d changed ↔ IsNews n (cell d t)) etag told,
        known,
        now ∙ ap (λ n. latest n (cell d t)) etag,
      )

poll_once-broken :
    {St : Type 0} (s3 : S3 St) (s : St) (t : TickState) (i : Option HeadInfo) (x : S3Error)
    → s3.head (key users) s ≡ ok i
    → s3.head (key sets) s ≡ err x
    → poll_once s3 s t ≡ (err x, (refresh users i t).1)
unfolding poll_once heads poll_from
poll_once-broken s3 s t i x hu hs = rw (hu, hs, poll_from)

ok-injective :
    {a b : Option HeadInfo} → ◌≡◌ {A = Result S3Error (Option HeadInfo)} (ok a) (ok b) → a ≡ b
ok-injective e = cc

-- A poll in which the tick of the sets cannot be read reports nothing, but
-- has already noted a new ETag of the users' tick: the next poll that sees this ETag does not report
-- the users either, so the change is missed until the next full scan.
pub poll_once_misses :
    {St : Type 0} (s3 : S3 St) (s r : St) (t t' : TickState) (i j : HeadInfo) (e : Text)
    (x : S3Error) (changed : List Domain)
    → s3.head (key users) s ≡ ok (some i)
    → i.etag ≡ some e
    → cell users t ≢ some e
    → s3.head (key sets) s ≡ err x
    → s3.head (key users) r ≡ ok (some j)
    → j.etag ≡ some e
    → poll_once s3 r (poll_once s3 s t).1 ≡ (ok changed, t')
    → ((poll_once s3 s t).0 ≡ err x) × (¬ Reported users changed)
poll_once_misses s3 s r t t' i j e x changed hu he hn hs hr hj p =
    let broken = poll_once-broken s3 s t (some i) x hu hs in
    let noted : cell users (poll_once s3 s t).1 ≡ some e =
      ap (λ (q : Result S3Error (List Domain) × TickState). cell users q.1) broken
      ∙ (refresh-Reported users (some i) t).1
      ∙ ap (λ n. latest n (cell users t)) he in
    let (k, head, told, now) = poll_once-Tells s3 r (poll_once s3 s t).1 t' changed users p in
    let same : seen_etag k ≡ some e = ap seen_etag (ok-injective (sym head ∙ hr)) ∙ hj in
    (
      ap (λ (q : Result S3Error (List Domain) × TickState). q.0) broken,
      λ reported.
          subst (λ n. IsNews n (cell users (poll_once s3 s t).1)) same (told.0 reported) noted,
    )
