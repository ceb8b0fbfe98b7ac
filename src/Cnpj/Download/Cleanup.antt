-- ===== src/Cnpj/Download/Cleanup.antt =====
-- What a download leaves: the job's directory and the lock, on every path.
use sniper_synapse.Base.{
  ℕ, String, ◌≡◌, refl, Bool, true, false, not, ◌||◌, Option, none, some, List, ◌==◌, arith,
}
use sniper_synapse.Base.Int.{ℤ}
use sniper_synapse.Cnpj.Storage.{Disk}
use sniper_synapse.Cnpj.Download.{
  Result, ok, err, uncaught, Urls, validated_url, JobDirectory, absent, holds_file, rmdir, Answer,
  settle, answered, start_download, download_validated, download, close_file, with_file,
  downloaded_cnpj_zip,
}

-- The block left an entry of its own: another file, or one of the name of `.part`.
abbrev pub has_own : JobDirectory → Bool
has_own d = holds_file d.part || not (d.others == 0)

-- A failed download leaves no directory, and a good one no entry but the ready file.
abbrev Settled : JobDirectory × Result (List ℕ) → Type 0
Settled (d, ok bytes) =
    (d.exists ≡ true) × (d.part ≡ none) × (d.ready ≡ some bytes) × (d.others ≡ 0)
Settled (d, err e) = d.exists ≡ false

settle-Settled :
    (made : JobDirectory) (r : Result (List ℕ))
    → made.exists ≡ true
    → made.others ≡ 0
    → Settled (settle made r)
unfolding settle rmdir
settle-Settled made (ok bytes) e o = (e, refl, refl, o)
settle-Settled made (err x) e o = rw (e, o) refl

-- How the context manager ends, from what the block left in the directory and how it ended: with
-- no entry of its own the directory is gone and the block's result stays, and else the exception
-- of `rmdir` takes its place.
abbrev pub Closes {ℓ} :
    {B : Type ℓ} → JobDirectory × Result B → JobDirectory × Bool × Result B → Type ℓ
Closes (left, ended) r =
    (has_own left ≡ false → (r.0.exists ≡ false) × (r.2 ≡ ended))
    × (has_own left ≡ true → left.exists ≡ true → r.2 ≡ err uncaught)

close_file-Closes {ℓ} :
    {B : Type ℓ} (left : JobDirectory) (ended : Result B)
    → Closes (left, ended) (close_file (left, ended))
unfolding close_file rmdir
close_file-Closes left ended = (λ h. ground (arith, h), λ h e. ground (arith, h, e))

module _ (urls : Urls) (parse_int : String → Option ℤ) (disk : Disk) where
  start_download-Settled :
      (is_zip valid_id : Bool) (answer : Option Answer)
      → Settled (start_download urls parse_int disk is_zip valid_id absent answer)
  unfolding start_download
  start_download-Settled false valid_id answer = refl
  start_download-Settled true false answer = refl
  start_download-Settled true true answer =
      settle-Settled _ (answered urls parse_int disk answer) refl refl

  validated-Settled :
      (r : Result String) (is_zip valid_id : Bool) (answer : Option Answer)
      → Settled (download_validated urls parse_int disk r is_zip valid_id absent answer)
  unfolding download_validated
  validated-Settled (err e) is_zip valid_id answer = refl
  validated-Settled (ok url) is_zip valid_id answer = start_download-Settled is_zip valid_id answer

  download-Settled :
      (url : String) (is_zip valid_id : Bool) (answer : Option Answer)
      → Settled (download urls parse_int disk url is_zip valid_id absent answer)
  unfolding download
  download-Settled url is_zip valid_id answer =
      validated-Settled (validated_url urls url) is_zip valid_id answer

  -- The end of the context manager after a download: a failed one leaves no directory and its
  -- exception, and after a good one the block got a directory with the ready file alone.
  abbrev pub Ends {ℓ} :
      {B : Type ℓ}
      → (List ℕ → JobDirectory → JobDirectory × Result B)
      → JobDirectory × Result (List ℕ)
      → JobDirectory × Bool × Result B
      → Type ℓ
  Ends body (d, err e) r = (r.0.exists ≡ false) × (r.2 ≡ err e)
  Ends body (d, ok bytes) r =
      (d.part ≡ none) × (d.ready ≡ some bytes) × (d.others ≡ 0) × Closes (body bytes d) r

  with_file-Ends {ℓ} :
      {B : Type ℓ} (body : List ℕ → JobDirectory → JobDirectory × Result B)
      (r : JobDirectory × Result (List ℕ))
      → Settled r
      → Ends body r (with_file body r)
  unfolding with_file
  with_file-Ends body (d, ok bytes) (_, part, ready, others) =
      (part, ready, others, close_file-Closes (body bytes d).0 (body bytes d).1)
  with_file-Ends body (d, err e) gone = (gone, refl)

  with_file-unlocks {ℓ} :
      {B : Type ℓ} (body : List ℕ → JobDirectory → JobDirectory × Result B)
      (r : JobDirectory × Result (List ℕ))
      → (with_file body r).1 ≡ false
  unfolding with_file close_file
  with_file-unlocks body (d, ok bytes) = ground arith
  with_file-unlocks body (d, err e) = refl

  -- For a job without a directory, with the lock free: the lock is free afterwards. A download
  -- that raises leaves no directory, and its exception. Otherwise the caller's block gets a
  -- directory with the ready file alone; if it leaves no entry of its own there, whether it raises
  -- or not, the directory is gone afterwards and the block's result stays, and if it leaves one,
  -- the exception of `rmdir` takes the result's place.
  pub downloaded_cnpj_zip-Ends {ℓ} :
      {B : Type ℓ} (url : String) (is_zip valid_id : Bool) (answer : Option Answer)
      (body : List ℕ → JobDirectory → JobDirectory × Result B)
      → ((downloaded_cnpj_zip urls parse_int disk false url is_zip valid_id absent answer body).1
          ≡ false)
        × Ends body
            (download urls parse_int disk url is_zip valid_id absent answer)
            (downloaded_cnpj_zip urls parse_int disk false url is_zip valid_id absent answer body)
  unfolding downloaded_cnpj_zip
  downloaded_cnpj_zip-Ends url is_zip valid_id answer body =
      let r : JobDirectory × Result (List ℕ) =
        download urls parse_int disk url is_zip valid_id absent answer in
      (
        with_file-unlocks body r,
        with_file-Ends body r (download-Settled url is_zip valid_id answer),
      )
