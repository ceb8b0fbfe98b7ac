-- ===== src/Postings/Persist/Shown.antt =====
-- What `persist_job_postings` of apps/crawler/services.py leaves in the table of postings.
use sniper_synapse.Base.{
  ℕ, suc, Option, none, ◌+◌, ◌≤◌, String, ◌≡◌, ◌⊎◌, refl, sym, ◌∙◌, arith, Bool, true, false, ◌&&◌,
  List, [], ◌∷◌, ◌++◌, ◌==◌, any, update_where, All, Bool-cases, inl, inr, length, take,
  length-take_le, str_eq,
}
use sniper_synapse.Base.Results.{Result, ok, err, bound, ok_inj}
use sniper_synapse.Scoring.Json.{Entries, get}
use sniper_synapse.Crawler.Security.{Web}
use sniper_synapse.Postings.Parse.{
  PostingError, bad_date, Markup, is_text, null_or, scalar, job_date, job_posting_objects,
}
use sniper_synapse.Postings.Persist.{
  JobPosting, PostingRecord, PostingTables, Moment, Draft, add, title_of, read_draft,
  fingerprint_of, is_posting_of, write_draft, new_posting, store_draft, store_objects, is_unseen,
  deactivate_unseen, persist_job_postings,
}

length-add : (s : String) (seen : List String) → length (add s seen) ≤ suc (length seen)
length-add s seen = ground arith

module _ {A : Type 0} (same : A → A → Bool) where
  -- No two rows have the same key.
  abbrev pub UniqueBy : List A → Type 0
  UniqueBy [] = Unit
  UniqueBy (x ∷ xs) = (any (same x) xs ≡ false) × UniqueBy xs

  module _ (p : A → Bool) (f : A → A) (left : (a b : A) → same (f a) b ≡ same a b)
      (right : (a b : A) → same a (f b) ≡ same a b) where
    any-same : (x : A) (xs : List A) → any (same x) (update_where p f xs) ≡ any (same x) xs
    any-same x [] = refl
    any-same x (y ∷ xs) = elim (Bool-cases (p y)) [
      | inl t ↦ rw (t, any-same x xs, right x y) refl
      | inr t ↦ rw (t, any-same x xs) refl
    ]

    any-left : (x : A) (xs : List A) → any (same (f x)) xs ≡ any (same x) xs
    any-left x [] = refl
    any-left x (y ∷ xs) = rw (left x y, any-left x xs) refl

    update_where-UniqueBy : (xs : List A) → UniqueBy xs → UniqueBy (update_where p f xs)
    update_where-UniqueBy [] h = tt
    update_where-UniqueBy (x ∷ xs) h = elim (Bool-cases (p x)) [
      | inl t ↦
          rw t
            (any-left x (update_where p f xs) ∙ any-same x xs ∙ h.0, update_where-UniqueBy xs h.1)
      | inr t ↦ rw t (any-same x xs ∙ h.0, update_where-UniqueBy xs h.1)
    ]

  any-last :
      (x row : A) (xs : List A)
      → any (same x) xs ≡ false
      → same x row ≡ false
      → any (same x) (xs ++ row ∷ []) ≡ false
  any-last x row [] h n = ground (arith, n)
  any-last x row (y ∷ xs) h n = ground (arith, h, any-last x row xs (ground (arith, h)) n)

  append-UniqueBy :
      (row : A) (xs : List A)
      → any (λ x. same x row) xs ≡ false
      → UniqueBy xs
      → UniqueBy (xs ++ row ∷ [])
  append-UniqueBy row [] n h = (refl, tt)
  append-UniqueBy row (x ∷ xs) n h =
      (any-last x row xs h.0 (ground (arith, n)), append-UniqueBy row xs (ground (arith, n)) h.1)

draft-cases : (o : Result PostingError Draft) → (o ≡ err bad_date) ⊎ ((d : Draft) × (o ≡ ok d))
draft-cases (ok d) = inr (d, refl)
draft-cases (err bad_date) = inl refl

-- The unique constraint of the table: company and fingerprint.
abbrev pub same_key : JobPosting → JobPosting → Bool
same_key p q = p.company == q.company && str_eq p.fingerprint q.fingerprint

module _ (py : Markup) (web : Web) (m : Moment) (company : ℕ) (r : PostingRecord) where
  abbrev Unique : PostingTables → Type 0
  Unique t = UniqueBy same_key t.postings

  store_draft-Unique :
      (t : PostingTables) (d : Draft) → Unique t → Unique (store_draft py web m company r t d)
  unfolding store_draft write_draft new_posting
  store_draft-Unique t d h =
      let fingerprint : String = fingerprint_of py web company t.postings d in
      let p : JobPosting → Bool = is_posting_of py web company fingerprint in
      elim (Bool-cases (any p t.postings)) [
        | inl y ↦ rw y (
            update_where-UniqueBy same_key p (write_draft py web m company r d) (λ a b. refl)
              (λ a b. refl) t.postings h)
        | inr n ↦ rw n (append-UniqueBy same_key _ t.postings n h)
      ]

  stored_records :
      (t : PostingTables) (d : Draft) → (store_draft py web m company r t d).records ≡ t.records
  unfolding store_draft
  stored_records t d = refl

  -- From tables and a seen set: the keys stay unique, at most one fingerprint is added for each
  -- object, and the records are not touched.
  abbrev Grown : PostingTables → ℕ → PostingTables × List String → Type 0
  Grown t bound_size out = Unique out.0 × (length out.1 ≤ bound_size) × (out.0.records ≡ t.records)

  Grown-mono :
      (t : PostingTables) (small large : ℕ) (out : PostingTables × List String)
      → small ≤ large
      → Grown t small out
      → Grown t large out
  Grown-mono t small large out l (u, n, e) = (u, omega (arith, l, n), e)

  store_objects-Grown :
      (t : PostingTables) (seen : List String) (items : List Entries)
      (out : PostingTables × List String)
      → Unique t
      → store_objects py web m company r t seen items ≡ ok out
      → Grown t (length seen + length items) out
  unfolding store_objects
  store_objects-Grown t seen [] out u h =
      rw (sym (ok_inj {E = PostingError} (t, seen) out h)) (u, omega arith, refl)
  store_objects-Grown t seen (d ∷ rest) out u h = elim (Bool-cases (is_text (title_of py web d))) [
    | inr n ↦
        Grown-mono t (length seen + length rest) (length seen + suc (length rest)) out (omega arith)
          (store_objects-Grown t seen rest out u (rw (n, store_objects) at h))
    | inl y ↦
        let (draft, _, later) = bound (read_draft py web d) _ (rw (y, store_objects) at h) in
        let print : String = fingerprint_of py web company t.postings draft in
        let (unique, size, records) =
          store_objects-Grown (store_draft py web m company r t draft) (add print seen) rest out
            (store_draft-Unique t draft u) later in
        (unique, omega (arith, size, length-add print seen), records ∙ stored_records t draft)
  ]

  seen_or_inactive :
      (t : PostingTables) (seen : List String) (rows : List JobPosting)
      → All
          (λ p. is_unseen py web m company r t seen p ≡ false)
          (update_where
            (is_unseen py web m company r t seen)
            (λ p. record p { active = false; last_seen_at = m.observed_at })
            rows)
  seen_or_inactive t seen [] = tt
  seen_or_inactive t seen (p ∷ rows) = elim (Bool-cases (is_unseen py web m company r t seen p)) [
    | inl y ↦ (rw y (ground arith), seen_or_inactive t seen rows)
    | inr n ↦ (rw n n, seen_or_inactive t seen rows)
  ]

  -- The column is a text that has the form of a date and is no day of the calendar.
  abbrev pub RaisesAt : String → Entries → Type 0
  RaisesAt column d =
      (is_text (scalar py (null_or (get column d))) ≡ true)
      × (py.parse_date (scalar py (null_or (get column d))) ≡ none)

  job_date-raises :
      (column : String) (d : Entries)
      → RaisesAt column d
      → job_date py (null_or (get column d)) ≡ err bad_date
  unfolding job_date
  job_date-raises column d (given, raises) = rw (given, raises) refl

  date-cases :
      (o : Result PostingError (Option ℕ)) → (o ≡ err bad_date) ⊎ ((d : Option ℕ) × (o ≡ ok d))
  date-cases (ok d) = inr (d, refl)
  date-cases (err bad_date) = inl refl

  read_draft-raises :
      (d : Entries)
      → RaisesAt "datePosted" d ⊎ RaisesAt "validThrough" d
      → read_draft py web d ≡ err bad_date
  unfolding read_draft
  read_draft-raises d (inl raises) = rw (job_date-raises "datePosted" d raises) refl
  read_draft-raises d (inr raises) =
      elim (date-cases (job_date py (null_or (get "datePosted" d)))) [
        | inl e ↦ rw e refl
        | inr e ↦ rw (e.1, job_date-raises "validThrough" d raises) refl
      ]

  bad_object :
      (before after : List Entries) (d : Entries) (t : PostingTables) (seen : List String)
      → is_text (title_of py web d) ≡ true
      → read_draft py web d ≡ err bad_date
      → store_objects py web m company r t seen (before ++ d ∷ after) ≡ err bad_date
  unfolding store_objects
  bad_object [] after d t seen title raises = rw (title, raises, store_objects) refl
  bad_object (b ∷ before) after d t seen title raises =
      elim (Bool-cases (is_text (title_of py web b))) [
        | inr n ↦ rw (n, store_objects) (bad_object before after d t seen title raises)
        | inl y ↦ elim (draft-cases (read_draft py web b)) [
          | inl e ↦ rw (y, e, store_objects) refl
          | inr k ↦
              rw (y, k.1, store_objects)
                (bad_object before after d (store_draft py web m company r t k.0)
                  (add (fingerprint_of py web company t.postings k.0) seen) title raises)
        ]
      ]

  -- Persisting the postings of a record keeps the pair of company and fingerprint unique, sees at
  -- most 100 postings, and leaves no active posting of the record's company, source and identifier
  -- that it has not seen.
  pub persist_job_postings-Unique :
      (structured_data : List Entries) (t : PostingTables) (out : PostingTables × List String)
      → UniqueBy same_key t.postings
      → persist_job_postings py web m company r structured_data t ≡ ok out
      → UniqueBy same_key out.0.postings
        × (length out.1 ≤ 100)
        × All (λ p. is_unseen py web m company r out.0 out.1 p ≡ false) out.0.postings
  unfolding persist_job_postings deactivate_unseen
  persist_job_postings-Unique structured_data t out u h =
      let items : List Entries = take 100 (job_posting_objects py structured_data) in
      let (mid, loop, last) = bound (store_objects py web m company r t [] items) _ h in
      let (unique, size, records) = store_objects-Grown t [] items mid u loop in
      let same =
        ok_inj {E = PostingError} (deactivate_unseen py web m company r mid.0 mid.1, mid.1) out
          last in
      rw (sym same) (
        update_where-UniqueBy same_key (is_unseen py web m company r mid.0 mid.1)
            (λ p. record p { active = false; last_seen_at = m.observed_at }) (λ a b. refl)
            (λ a b. refl) mid.0.postings unique,
        omega (arith, size, length-take_le 100 (job_posting_objects py structured_data)),
        seen_or_inactive mid.0 mid.1 mid.0.postings,
      )

  -- One invalid date stops the whole call: an object with a title and a text as `datePosted` or
  -- `validThrough` for which `parse_date` raises, anywhere among the first hundred postings of the
  -- page, makes the call raise, so that no posting of the page is stored.
  pub bad_date_stops_all :
      (structured_data before after : List Entries) (d : Entries) (t : PostingTables)
      → take 100 (job_posting_objects py structured_data) ≡ before ++ d ∷ after
      → is_text (title_of py web d) ≡ true
      → RaisesAt "datePosted" d ⊎ RaisesAt "validThrough" d
      → persist_job_postings py web m company r structured_data t ≡ err bad_date
  unfolding persist_job_postings
  bad_date_stops_all structured_data before after d t split title raises =
      rw (split, bad_object before after d t [] title (read_draft-raises d raises)) refl
