-- ===== src/Postings/Reviews.antt =====
-- apps/crawler/reviews.py: a pending review is approved, which stores its posting, or dismissed.
use mathlib.Core.Path.{subst}
use sniper_synapse.Base.{
  ℕ, String, ◌≡◌, ◌⊎◌, refl, sym, ◌∙◌, ap, arith, Bool, true, false, Option, none, some, List, [],
  ◌∷◌, ◌==◌, if◌then◌else◌, first_where, update_where, Bool-cases, inl, inr, ==_iff,
}
use sniper_synapse.Base.Results.{
  Result, ok, err, ◌>>=◌, guard, or_raise, bound, ok_inj, raised_none,
}
use sniper_synapse.Crawler.Security.{Web}
use sniper_synapse.Cnpj.Models.{Source}
use sniper_synapse.Postings.Parse.{PostingError, Markup, is_text}
use sniper_synapse.Postings.Persist.{JobPosting, Moment, is_posting_of}
use sniper_synapse.Postings.Matching.{JobSourceItem, Employer, Texts}
use sniper_synapse.Postings.Collect.{
  JobPostingReview, matched, dismissed, is_pending, JobTables, Digests, persist_source_item,
}

-- `DoesNotExist`, the two messages of `JobReviewResolutionError`, and an exception of the storing.
pub data ReviewError : Type 0 where
  no_row already_resolved not_persisted : ReviewError
  posting_raised : PostingError → ReviewError

-- `isoformat` of a day, the metadata with `approved_from_review`, and `str.strip`.
pub record Notes : Type 0 where
  pub isoformat : ℕ → String
  pub approved_metadata : String → ℕ → String
  pub strip : String → String

-- What an approval leaves: the tables, the posting, and the company whose signals are to be
-- detected after the commit.
pub record Approval : Type 0 where
  pub tables : JobTables
  pub posting : JobPosting
  pub enqueued : ℕ

abbrev pub has_id : ℕ → JobPostingReview → Bool
has_id id r = r.id == id

abbrev day_text : Notes → Option ℕ → String
day_text notes none = ""
day_text notes (some day) = notes.isoformat day

unfoldable pub item_of_review : Notes → JobPostingReview → JobSourceItem
item_of_review notes r = record {
  external_id = r.external_id;
  title = r.title;
  company_name = r.company_name;
  company_domain = r.company_domain;
  company_cnpj = "";
  description = "";
  location = r.location;
  url = r.url;
  published_on = day_text notes r.published_on;
  valid_through = day_text notes r.valid_through;
  employment_type = r.employment_type;
  metadata = notes.approved_metadata r.metadata r.id;
}

-- The review that an operation may resolve.
unfoldable pub pending_review : ℕ → JobTables → Result ReviewError JobPostingReview
pending_review id t = do
  r ← or_raise no_row (first_where (has_id id) t.reviews)
  _ ← guard (is_pending r.status) already_resolved
  ok r

abbrev save_review : JobPostingReview → JobTables → JobTables
save_review r t = record t { reviews = update_where (has_id r.id) (λ q. r) t.reviews }

module _ (notes : Notes) (user now : ℕ) where
  unfoldable pub dismissed_row : String → JobPostingReview → JobPostingReview
  dismissed_row reason r = record r {
    status = dismissed;
    reviewed_by = some user;
    reviewed_at = some now;
    resolution_note = notes.strip reason;
  }

  -- `dismiss_job_review`
  unfoldable pub dismiss_job_review : ℕ → String → JobTables → Result ReviewError JobTables
  dismiss_job_review id reason t = do
    r ← pending_review id t
    ok (save_review (dismissed_row reason r) t)

  unfoldable pub approved_row : Employer → JobPosting → String → JobPostingReview → JobPostingReview
  approved_row c posting note r = record r {
    status = matched;
    suggested_company = some c.id;
    job_posting = some posting.id;
    reviewed_by = some user;
    reviewed_at = some now;
    resolution_note = notes.strip note;
  }

  abbrev print_of : Result PostingError String → Result ReviewError String
  print_of (err e) = err (posting_raised e)
  print_of (ok fingerprint) = if is_text fingerprint then ok fingerprint else err not_persisted

  module _ (py : Texts) (markup : Markup) (web : Web) (digests : Digests) (m : Moment)
      (sources : List Source) where
    -- `approve_job_review`: an exception leaves the tables as they were.
    unfoldable pub approve_job_review :
        ℕ → Employer → String → JobTables → Result ReviewError Approval
    approve_job_review id c note t = do
      r ← pending_review id t
      source ← or_raise no_row (first_where (λ s. s.id == r.source) sources)
      let out =
          persist_source_item py markup web digests m source c (item_of_review notes r) t.postings
      fingerprint ← print_of out.1
      posting ←
          or_raise no_row (first_where (is_posting_of markup web c.id fingerprint) out.0.postings)
      ok (record {
        tables = save_review (approved_row c posting note r) (record t { postings = out.0 });
        posting = posting;
        enqueued = c.id;
      })

first_saved :
    (id : ℕ) (r : JobPostingReview) (rows : List JobPostingReview) (old : JobPostingReview)
    → has_id id r ≡ true
    → first_where (has_id id) rows ≡ some old
    → first_where (has_id id) (update_where (has_id id) (λ q. r) rows) ≡ some r
first_saved id r [] old h f = ground (arith, f)
first_saved id r (q ∷ rows) old h f = elim (Bool-cases (has_id id q)) [
  | inl y ↦ rw (y, h) refl
  | inr n ↦ rw (n, n) (first_saved id r rows old h (rw n at f))
]

some_inj : (a b : JobPostingReview) → some a ≡ some b → a ≡ b
some_inj a b h = ap (λ o. elim o [ none ↦ a | some x ↦ x ]) h

first-satisfies :
    (id : ℕ) (rows : List JobPostingReview) (r : JobPostingReview)
    → first_where (has_id id) rows ≡ some r
    → has_id id r ≡ true
first-satisfies id [] r f = ground (arith, f)
first-satisfies id (q ∷ rows) r f = elim (Bool-cases (has_id id q)) [
  | inl y ↦ rw (sym (some_inj q r (rw y at f))) y
  | inr n ↦ first-satisfies id rows r (rw n at f)
]

-- A table whose review `id` is the one that was saved, and is resolved.
saved-resolved :
    (id : ℕ) (t : JobTables) (old r : JobPostingReview)
    → first_where (has_id id) t.reviews ≡ some old
    → r.id ≡ old.id
    → is_pending r.status ≡ false
    → pending_review id (save_review r t) ≡ err already_resolved
unfolding pending_review
saved-resolved id t old r f same settled =
    let found : has_id id old ≡ true = first-satisfies id t.reviews old f in
    let is_id : r.id ≡ id = same ∙ (==_iff old.id id).0 found in
    let saved : first_where (has_id id) (update_where (has_id r.id) (λ q. r) t.reviews) ≡ some r =
      subst (λ k. first_where (has_id id) (update_where (has_id k) (λ q. r) t.reviews) ≡ some r)
        (sym is_id) (first_saved id r t.reviews old (rw same found) f) in
    rw (saved, settled) refl

pending-found :
    (id : ℕ) (t : JobTables) (r : JobPostingReview)
    → pending_review id t ≡ ok r
    → first_where (has_id id) t.reviews ≡ some r
unfolding pending_review
pending-found id t r h =
    let (q, found, after) = bound (or_raise no_row (first_where (has_id id) t.reviews)) _ h in
    let (_, _, last) = bound (guard (is_pending q.status) already_resolved) _ after in
    let same : q ≡ r = ok_inj {E = ReviewError} q r last in
    rw (sym same) (raised_none no_row (first_where (has_id id) t.reviews) q found)

module _ (notes : Notes) (user now : ℕ) where
  dismiss-resolves :
      (id : ℕ) (reason : String) (t t' : JobTables)
      → dismiss_job_review notes user now id reason t ≡ ok t'
      → pending_review id t' ≡ err already_resolved
  unfolding dismiss_job_review dismissed_row
  dismiss-resolves id reason t t' h =
      let (r, found, last) = bound (pending_review id t) _ h in
      let row : JobPostingReview = dismissed_row notes user now reason r in
      rw (sym (ok_inj {E = ReviewError} (save_review row t) t' last))
        (saved-resolved id t r row (pending-found id t r found) refl refl)

  module _ (py : Texts) (markup : Markup) (web : Web) (digests : Digests) (m : Moment)
      (sources : List Source) where
    abbrev pub approve : ℕ → Employer → String → JobTables → Result ReviewError Approval
    approve = approve_job_review notes user now py markup web digests m sources

    abbrev pub dismiss : ℕ → String → JobTables → Result ReviewError JobTables
    dismiss = dismiss_job_review notes user now

    approve-resolves :
        (id : ℕ) (c : Employer) (note : String) (t : JobTables) (a : Approval)
        → approve id c note t ≡ ok a
        → pending_review id a.tables ≡ err already_resolved
    unfolding approve_job_review approved_row
    approve-resolves id c note t a h =
        let (r, found, h1) = bound (pending_review id t) _ h in
        let (source, _, h2) =
          bound (or_raise no_row (first_where (λ s. s.id == r.source) sources)) _ h1 in
        let out =
          persist_source_item py markup web digests m source c (item_of_review notes r)
            t.postings in
        let (fingerprint, _, h3) = bound (print_of notes user now out.1) _ h2 in
        let (posting, _, h4) =
          bound
            (or_raise no_row
              (first_where (is_posting_of markup web c.id fingerprint) out.0.postings))
            _ h3 in
        let row : JobPostingReview = approved_row notes user now c posting note r in
        let saved : JobTables = save_review row (record t { postings = out.0 }) in
        rw
          (sym (
            ok_inj {E = ReviewError} (record { tables = saved; posting = posting; enqueued = c.id })
              a h4))
          (saved-resolved id (record t { postings = out.0 }) r row (pending-found id t r found) refl
            refl)

    -- The review was approved or dismissed, with these tables as the result.
    abbrev pub Resolves : ℕ → JobTables → JobTables → Type 0
    Resolves id t t' =
        ((reason : String) × (dismiss id reason t ≡ ok t'))
        ⊎ ((c : Employer) × (note : String) × (a : Approval) × (approve id c note t ≡ ok a)
            × (a.tables ≡ t'))

refuses :
    (notes : Notes) (py : Texts) (markup : Markup) (web : Web) (digests : Digests) (id : ℕ)
    (t : JobTables)
    → pending_review id t ≡ err already_resolved
    → ((user now : ℕ) (reason : String)
        → dismiss_job_review notes user now id reason t ≡ err already_resolved)
      × ((user now : ℕ) (m : Moment) (sources : List Source) (c : Employer) (note : String)
          → approve_job_review notes user now py markup web digests m sources id c note t
            ≡ err already_resolved)
unfolding dismiss_job_review approve_job_review
refuses notes py markup web digests id t h =
    (λ user now reason. rw h refl, λ user now m sources c note. rw h refl)

-- A review is resolved once: after it was approved or dismissed, each attempt to dismiss it or to
-- approve it, by any user, at any time, with any sources and for any company, is refused as
-- already resolved.
pub resolved_once :
    (notes : Notes) (user now : ℕ) (py : Texts) (markup : Markup) (web : Web) (digests : Digests)
    (m : Moment) (sources : List Source) (id : ℕ) (t t' : JobTables)
    → Resolves notes user now py markup web digests m sources id t t'
    → ((user2 now2 : ℕ) (reason : String)
        → dismiss_job_review notes user2 now2 id reason t' ≡ err already_resolved)
      × ((user2 now2 : ℕ) (m2 : Moment) (sources2 : List Source) (c : Employer) (note : String)
          → approve_job_review notes user2 now2 py markup web digests m2 sources2 id c note t'
            ≡ err already_resolved)
resolved_once notes user now py markup web digests m sources id t t' (inl (reason, h)) =
    refuses notes py markup web digests id t' (dismiss-resolves notes user now id reason t t' h)
resolved_once notes user now py markup web digests m sources id t t' (inr (c, note, a, h, same)) =
    refuses notes py markup web digests id t' (
      rw (sym same)
        (approve-resolves notes user now py markup web digests m sources id c note t a h))
