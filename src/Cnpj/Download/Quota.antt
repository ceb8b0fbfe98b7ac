-- ===== src/Cnpj/Download/Quota.antt =====
-- What a download writes: the bounds of the copy.
use sniper_synapse.Base.{
  ℕ, ◌+◌, ◌≤◌, String, ◌≡◌, refl, sym, Bool, true, false, ◌||◌, Option, none, some, List, [], ◌∷◌,
  ◌++◌, arith, ltb, Bool-cases, inl, inr, length, length-append, ◌∙◌, ap,
}
use sniper_synapse.Base.Int.{ℤ}
use sniper_synapse.Cnpj.Storage.{Disk, assess_download_capacity, assess_download_capacity-allowed}
use sniper_synapse.Cnpj.Download.{
  DownloadError, Result, ok, err, ◌>>=◌, guard, Urls, validated_url, content_length, check_quota,
  copy_chunks, JobDirectory, rmdir, Answer, admit, finish_copy, receive, settle, answered,
  start_download, download_validated, download, over_capacity,
}

bind-ok {ℓ κ} :
    {A : Type ℓ} {B : Type κ} (first : Result A) (rest : A → Result B) {end : B}
    → (first >>= rest) ≡ ok end
    → (value : A) × (first ≡ ok value) × (rest value ≡ ok end)
bind-ok (ok value) rest h = (value, refl, h)
bind-ok (err e) f h = ground (arith, h)

guard-ok : (b : Bool) (e : DownloadError) {u : Unit {0}} → guard b e ≡ ok u → b ≡ true
guard-ok true e h = refl
guard-ok false e h = ground (arith, h)

removal-error :
    (d : JobDirectory) (e : DownloadError) (bytes : List ℕ)
    → ((rmdir d).1 >>= λ _. err e) ≡ ok bytes
    → ⊥
unfolding rmdir
removal-error d e bytes h = ground (arith, h)

settle-ok :
    (made : JobDirectory) (r : Result (List ℕ)) (directory : JobDirectory) (bytes : List ℕ)
    → settle made r ≡ (directory, ok bytes)
    → r ≡ ok bytes
unfolding settle
settle-ok made (ok b) directory bytes h = ground (arith, h)
settle-ok made (err e) directory bytes h =
    elim (removal-error (record made { part = none; ready = none }) e bytes (ap (λ x. x.1) h)) [ ]

module _ (expected max_bytes : ℕ) where
  abbrev Bounded : List ℕ × Result ℕ → Type 0
  Bounded r =
      (length r.0 ≤ expected) × (length r.0 ≤ max_bytes) × ((n : ℕ) → r.1 ≡ ok n → length r.0 ≡ n)

  copy_chunks-Bounded :
      (written : ℕ) (part : List ℕ) (chunks : List (List ℕ))
      → length part ≡ written
      → written ≤ expected
      → written ≤ max_bytes
      → Bounded (copy_chunks expected max_bytes written part chunks)
  unfolding copy_chunks
  copy_chunks-Bounded written part [] l h k =
      (ground (arith, l, h), ground (arith, l, k), λ n e. ground (arith, l, e))
  copy_chunks-Bounded written part ([] ∷ chunks) l h k =
      (ground (arith, l, h), ground (arith, l, k), λ n e. ground (arith, l, e))
  copy_chunks-Bounded written part ((byte ∷ bytes) ∷ chunks) l h k =
      let total = written + length (byte ∷ bytes) in
      elim (Bool-cases (ltb expected total || ltb max_bytes total)) [
        | inl y ↦ rw y (ground (arith, l, h), ground (arith, l, k), λ n e. ground (arith, e))
        | inr y ↦ rw y (
            copy_chunks-Bounded total (part ++ (byte ∷ bytes)) chunks
              (length-append part (byte ∷ bytes) ∙ ap (λ n. n + length (byte ∷ bytes)) l)
              (ground (arith, y)) (ground (arith, y)))
      ]

  -- Whatever the source sends, `.part` never holds more bytes than the declared length or the
  -- quota.
  pub copy_within_quota :
      (chunks : List (List ℕ))
      → (length (copy_chunks expected max_bytes 0 [] chunks).0 ≤ expected)
        × (length (copy_chunks expected max_bytes 0 [] chunks).0 ≤ max_bytes)
  copy_within_quota chunks =
      let (a, b, _) = copy_chunks-Bounded 0 [] chunks refl (omega arith) (omega arith) in (a, b)

module _ (urls : Urls) (parse_int : String → Option ℤ) (disk : Disk) where
  abbrev pub FitsDisk : ℕ → Type 0
  FitsDisk n = (n ≤ disk.max_temp_bytes) × (n + disk.min_free_bytes ≤ disk.free_bytes)

  admit-FitsDisk :
      (answer : Answer) (expected : ℕ)
      → admit urls parse_int disk answer ≡ ok expected
      → FitsDisk expected
  unfolding admit check_quota
  admit-FitsDisk answer expected h =
      let (_, _, h1) = bind-ok (validated_url urls answer.geturl) _ h in
      let (n, _, h2) = bind-ok (content_length parse_int answer.length_header) _ h1 in
      let (_, q, h3) =
        bind-ok
          (guard (assess_download_capacity disk n).allowed
            (over_capacity (assess_download_capacity disk n).reason))
          _ h2 in
      let same : n ≡ expected = ground (arith, h3) in
      rw (sym same) ((assess_download_capacity-allowed disk n).0 (guard-ok _ _ q))

  finish_copy-ok :
      (answer : Answer) (expected : ℕ) (part : List ℕ) (written : ℕ) (bytes : List ℕ)
      → finish_copy urls parse_int disk answer expected part written ≡ ok bytes
      → (written ≡ expected) × (bytes ≡ part)
  unfolding finish_copy
  finish_copy-ok answer expected part written bytes h = ground (arith, h)

  receive-FitsDisk :
      (answer : Answer) (bytes : List ℕ)
      → receive urls parse_int disk answer ≡ ok bytes
      → FitsDisk (length bytes)
  unfolding receive
  receive-FitsDisk answer bytes h =
      let (expected, a, h1) = bind-ok (admit urls parse_int disk answer) _ h in
      let copied : List ℕ × Result ℕ =
        copy_chunks expected disk.max_temp_bytes 0 [] answer.chunks in
      let (written, w, h2) = bind-ok copied.1 _ h1 in
      let (e, b) = finish_copy-ok answer expected copied.0 written bytes h2 in
      let (_, _, count) =
        copy_chunks-Bounded expected disk.max_temp_bytes 0 [] answer.chunks refl (omega arith)
          (omega arith) in
      rw b (rw (count written w ∙ e) (admit-FitsDisk answer expected a))

  answered-FitsDisk :
      (o : Option Answer) (bytes : List ℕ)
      → answered urls parse_int disk o ≡ ok bytes
      → FitsDisk (length bytes)
  answered-FitsDisk none bytes h = ground (arith, h)
  answered-FitsDisk (some a) bytes h = receive-FitsDisk a bytes h

  start_download-FitsDisk :
      (is_zip valid_id : Bool) (directory d : JobDirectory) (answer : Option Answer)
      (bytes : List ℕ)
      → start_download urls parse_int disk is_zip valid_id directory answer ≡ (d, ok bytes)
      → FitsDisk (length bytes)
  unfolding start_download
  start_download-FitsDisk false valid_id directory d answer bytes h = ground (arith, h)
  start_download-FitsDisk true false directory d answer bytes h = ground (arith, h)
  start_download-FitsDisk true true directory d answer bytes h =
      elim (Bool-cases directory.exists) [
        | inl y ↦ ground (arith, rw y at h)
        | inr y ↦
            answered-FitsDisk answer bytes
              (settle-ok _ (answered urls parse_int disk answer) d bytes (rw y at h))
      ]

  validated-FitsDisk :
      (r : Result String) (is_zip valid_id : Bool) (directory d : JobDirectory)
      (answer : Option Answer) (bytes : List ℕ)
      → download_validated urls parse_int disk r is_zip valid_id directory answer ≡ (d, ok bytes)
      → FitsDisk (length bytes)
  unfolding download_validated
  validated-FitsDisk (err e) is_zip valid_id directory d answer bytes h = ground (arith, h)
  validated-FitsDisk (ok url) is_zip valid_id directory d answer bytes h =
      start_download-FitsDisk is_zip valid_id directory d answer bytes h

  -- A file that a download returns is within the quota, and leaves the reserve of the free bytes
  -- that were measured before it.
  pub download_fits :
      (url : String) (is_zip valid_id : Bool) (directory d : JobDirectory) (answer : Option Answer)
      (bytes : List ℕ)
      → download urls parse_int disk url is_zip valid_id directory answer ≡ (d, ok bytes)
      → FitsDisk (length bytes)
  unfolding download
  download_fits url is_zip valid_id directory d answer bytes h =
      validated-FitsDisk (validated_url urls url) is_zip valid_id directory d answer bytes h
