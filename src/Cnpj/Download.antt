-- ===== src/Cnpj/Download.antt =====
-- `_download` and `downloaded_cnpj_zip` of apps/sources/cnpj/storage.py: the copy of the response
-- under a quota, and the job's directory and the lock on every path. `_validated_url` is here too.
pub mod Cleanup
pub mod Quota
use sniper_synapse.Base.{
  ℕ, zero, suc, ◌+◌, ◌≤◌, String, ◌≡◌, ◌≢◌, refl, Bool, true, false, not, ◌&&◌, ◌||◌, Option, none,
  some, List, [], ◌∷◌, ◌++◌, ◌==◌, arith, if◌then◌else◌, ltb, leb, Bool-cases, inl, inr, length,
  length-append, str_eq,
}
use sniper_synapse.Base.Int.{ℤ, pos, negsuc}
use sniper_synapse.Cnpj.Storage.{Disk, assess_download_capacity, Reason}

-- `CnpjDownloadError` with its messages, `CnpjDownloadBusy`, `CnpjQuotaExceeded`, and an exception
-- of another class: one the transport raises, or `FileExistsError`.
pub data DownloadError : Type 0 where
  not_configured not_https has_credentials other_host other_path not_a_zip bad_job_id :
      DownloadError
  no_length bad_length empty_length incomplete corrupt_member busy : DownloadError
  quota_exceeded : DownloadError
  over_capacity : Reason → DownloadError
  uncaught : DownloadError

pub data Result {ℓ} (A : Type ℓ) : Type ℓ where
  ok : A → Result A
  err : DownloadError → Result A

infix 10 ◌>>=◌
abbrev pub ◌>>=◌ {ℓ κ} : {A : Type ℓ} {B : Type κ} → Result A → (A → Result B) → Result B
ok a >>= f = f a
err e >>= f = err e

abbrev pub guard : Bool → DownloadError → Result {0} Unit
guard true e = ok tt
guard false e = err e

-- `urlparse(value)`
pub record Parsed : Type 0 where
  pub scheme : String
  pub username : Option String
  pub password : Option String
  pub netloc : String
  pub path : String

-- The setting `CNPJ_SOURCE_BASE_URL` and the functions on texts. `base_path` is
-- `path.rstrip("/") + "/"`.
pub record Urls : Type 0 where
  pub base_value : String
  pub urlparse : String → Parsed
  pub base_path : String → String
  pub starts_with : String → String → Bool

abbrev pub given : Option String → Bool
given none = false
given (some s) = not (str_eq s "")

unfoldable pub validated_url : Urls → String → Result String
validated_url urls value =
    let base = urls.urlparse urls.base_value in
    let candidate = urls.urlparse value in
    do
      _ ← guard (not (str_eq urls.base_value "")) not_configured
      _ ← guard (str_eq base.scheme "https" && str_eq candidate.scheme "https") not_https
      _ ← guard (not (given candidate.username || given candidate.password)) has_credentials
      _ ← guard (str_eq candidate.netloc base.netloc) other_host
      _ ← guard (urls.starts_with candidate.path (urls.base_path base.path)) other_path
      ok value

-- `int(value)` is a parameter: `none` is a `ValueError`.
unfoldable pub content_length : (String → Option ℤ) → Option String → Result ℕ
content_length parse_int none = err no_length
content_length parse_int (some value) =
    if str_eq value "" then err no_length else elim (parse_int value) [
      | none ↦ err bad_length
      | some (pos zero) ↦ err empty_length
      | some (pos (suc n)) ↦ ok (suc n)
      | some (negsuc _) ↦ err empty_length
    ]

-- `_check_quota`
unfoldable pub check_quota : Disk → ℕ → Result {0} Unit
check_quota disk expected_bytes =
    let capacity = assess_download_capacity disk expected_bytes in
    guard capacity.allowed (over_capacity capacity.reason)

-- The loop over the chunks of the response: an empty chunk ends it, and `.part` grows by each
-- chunk that passes the test. The result is what `.part` holds, and how the loop ended.
unfoldable pub copy_chunks : ℕ → ℕ → ℕ → List ℕ → List (List ℕ) → List ℕ × Result ℕ
copy_chunks expected max_bytes written part [] = (part, ok written)
copy_chunks expected max_bytes written part ([] ∷ chunks) = (part, ok written)
copy_chunks expected max_bytes written part ((byte ∷ bytes) ∷ chunks) =
    let total = written + length (byte ∷ bytes) in
    let rest = copy_chunks expected max_bytes total (part ++ (byte ∷ bytes)) chunks in
    if ltb expected total || ltb max_bytes total then (part, err quota_exceeded) else rest

-- The job's directory: whether it exists, what its two files hold, and how many other entries it
-- has, which the caller's block can make.
pub record JobDirectory : Type 0 where
  pub exists : Bool
  pub part : Option (List ℕ)
  pub ready : Option (List ℕ)
  pub others : ℕ

abbrev pub absent : JobDirectory
absent = record { exists = false; part = none; ready = none; others = 0 }

abbrev pub holds_file : Option (List ℕ) → Bool
holds_file none = false
holds_file (some bytes) = true

-- `Path.rmdir`: an `OSError` on a directory that does not exist or has an entry.
unfoldable pub rmdir : JobDirectory → JobDirectory × Result {0} Unit
rmdir d =
    if d.exists && not (holds_file d.part || holds_file d.ready) && d.others == 0
    then (absent, ok tt)
    else (d, err uncaught)

-- The end of the `try` of `_download`: `.part` becomes the ready file. On an exception both files
-- are unlinked and the directory is removed; what `rmdir` raises takes the exception's place.
unfoldable pub settle : JobDirectory → Result (List ℕ) → JobDirectory × Result (List ℕ)
settle d (ok bytes) = (record d { part = none; ready = some bytes }, ok bytes)
settle d (err e) =
    let removed = rmdir (record d { part = none; ready = none }) in
    (removed.0, removed.1 >>= λ _. err e)

-- The `finally` of the context manager, with the directory that the caller's block left and how
-- the block ended. The lock file is closed in any case, which gives up the lock.
unfoldable pub close_file {ℓ} :
    {B : Type ℓ} → JobDirectory × Result B → JobDirectory × Bool × Result B
close_file (d, ended) =
    let unlinked : JobDirectory = record d { ready = none } in
    let removed = rmdir unlinked in
    if d.exists then (removed.0, false, removed.1 >>= λ _. ended) else (unlinked, false, ended)

-- `with_file body` runs the caller's block, which gets the file and may change the directory and
-- raise, after a download. A download that raises has set no path, so only the lock is given up.
unfoldable pub with_file {ℓ} :
    {B : Type ℓ}
    → (List ℕ → JobDirectory → JobDirectory × Result B)
    → JobDirectory × Result (List ℕ)
    → JobDirectory × Bool × Result B
with_file body (directory, err e) = (directory, false, err e)
with_file body (directory, ok bytes) = close_file (body bytes directory)

-- What the source answers: the URL after redirects, the length header and the chunks; `none` is
-- an exception of `urlopen`. `corrupt` is the result of `testzip` on what was written.
pub record Answer : Type 0 where
  pub geturl : String
  pub length_header : Option String
  pub chunks : List (List ℕ)
  pub corrupt : List ℕ → Bool

module _ (urls : Urls) (parse_int : String → Option ℤ) (disk : Disk) where
  -- The body of the `try`: what the directory holds then, and the result.
  unfoldable pub admit : Answer → Result ℕ
  admit answer = do
    _ ← validated_url urls answer.geturl
    expected ← content_length parse_int answer.length_header
    _ ← check_quota disk expected
    ok expected

  unfoldable pub finish_copy : Answer → ℕ → List ℕ → ℕ → Result (List ℕ)
  finish_copy answer expected part written =
      if not (written == expected)
      then err incomplete
      else if answer.corrupt part
      then err corrupt_member
      else ok part

  unfoldable pub receive : Answer → Result (List ℕ)
  receive answer = do
    expected ← admit answer
    let copied = copy_chunks expected disk.max_temp_bytes 0 [] answer.chunks
    written ← copied.1
    finish_copy answer expected copied.0 written

  -- What `.part` holds when the body of the `try` ends: it is opened after the checks.
  unfoldable pub part_left : Option Answer → Option (List ℕ)
  part_left none = none
  part_left (some answer) = elim (admit answer) [
    | ok expected ↦ some (copy_chunks expected disk.max_temp_bytes 0 [] answer.chunks).0
    | err _ ↦ none
  ]

  abbrev pub answered : Option Answer → Result (List ℕ)
  answered none = err uncaught
  answered (some answer) = receive answer

  -- `valid_id` is the match of `_job_directory`; a directory that exists is a `FileExistsError`.
  unfoldable pub start_download :
      Bool → Bool → JobDirectory → Option Answer → JobDirectory × Result (List ℕ)
  start_download false valid_id directory answer = (directory, err not_a_zip)
  start_download true false directory answer = (directory, err bad_job_id)
  start_download true true directory answer =
      let made : JobDirectory = record {
        exists = true;
        part = part_left answer;
        ready = none;
        others = 0;
      } in
      if directory.exists then (directory, err uncaught) else settle made (answered answer)

  unfoldable pub download_validated :
      Result String → Bool → Bool → JobDirectory → Option Answer → JobDirectory × Result (List ℕ)
  download_validated (err e) is_zip valid_id directory answer = (directory, err e)
  download_validated (ok url) is_zip valid_id directory answer =
      start_download is_zip valid_id directory answer

  -- `is_zip` tells whether the URL's path ends in `.zip`.
  unfoldable pub download :
      String → Bool → Bool → JobDirectory → Option Answer → JobDirectory × Result (List ℕ)
  download url is_zip valid_id directory answer =
      download_validated (validated_url urls url) is_zip valid_id directory answer

  -- The context manager, when another process holds the lock or not. The result is the job's
  -- directory and the lock afterwards, and how it went.
  unfoldable pub downloaded_cnpj_zip {ℓ} :
      {B : Type ℓ}
      → Bool
      → String
      → Bool
      → Bool
      → JobDirectory
      → Option Answer
      → (List ℕ → JobDirectory → JobDirectory × Result B)
      → JobDirectory × Bool × Result B
  downloaded_cnpj_zip locked url is_zip valid_id directory answer body =
      if locked
      then (directory, true, err busy)
      else with_file body (download url is_zip valid_id directory answer)
