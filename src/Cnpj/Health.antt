-- ===== src/Cnpj/Health.antt =====
-- `manifest_health` of apps/sources/cnpj/health.py: the state of the current manifest.
use sniper_synapse.Base.{
  ℕ, suc, ◌+◌, ◌*◌, ◌≤◌, ◌≡◌, refl, Bool, true, false, ◌&&◌, Option, none, some, List, [], ◌∷◌,
  ◌==◌, arith, ltb, max, if◌then◌else◌, all, any, filter_rows, first_where, map, length, str_eq,
  All,
}
use sniper_synapse.Base.Int.{ℤ, pos, leb_ℤ}
use sniper_synapse.Cnpj.Models.{
  Source, CnpjDataset, CnpjDatasetFile, is_ready, establishments, companies, simples, files_of,
  total_bytes,
}
use sniper_synapse.Cnpj.Storage.{
  Disk, assess_download_capacity, safe_capacity, capacity_agrees, assess_download_capacity-allowed,
}

pub data HealthReason : Type 0 where
  no_source source_disabled no_manifest not_ready not_complete too_old no_room all_good :
      HealthReason

pub data HealthState : Type 0 where
  unavailable disabled degraded healthy : HealthState

pub record CnpjManifestHealth : Type 0 where
  pub state : HealthState
  pub reason : HealthReason
  pub source : Option Source
  pub dataset : Option CnpjDataset
  pub establishment_parts : ℕ
  pub company_parts : ℕ
  pub simples_parts : ℕ
  pub total_files : ℕ
  pub total_bytes : ℕ
  pub largest_file_bytes : ℕ
  pub safe_capacity_bytes : ℤ
  pub fits_storage : Bool
  pub is_stale : Bool

abbrev pub part_numbers : List CnpjDatasetFile → List ℕ
part_numbers = map (λ f. f.part_number)

abbrev pub has_number : List ℕ → ℕ → Bool
has_number parts n = any (λ m. m == n) parts

-- The size of the set of the numbers of a list.
unfoldable pub distinct : List ℕ → ℕ
distinct [] = 0
distinct (n ∷ parts) = let rest = distinct parts in if has_number parts n then rest else suc rest

abbrev pub ten : List ℕ
ten = 0 ∷ 1 ∷ 2 ∷ 3 ∷ 4 ∷ 5 ∷ 6 ∷ 7 ∷ 8 ∷ 9 ∷ []

-- `parts == set(range(10))`
abbrev pub is_range_ten : List ℕ → Bool
is_range_ten parts = all (λ n. ltb n 10) parts && all (has_number parts) ten

-- `max((item.size_bytes for item in files), default=0)`
unfoldable pub largest : List CnpjDatasetFile → ℕ
largest [] = 0
largest (f ∷ files) = max f.size_bytes (largest files)

unfoldable pub is_complete : List CnpjDatasetFile → Bool
is_complete files =
    is_range_ten (part_numbers (files_of establishments files))
    && (is_range_ten (part_numbers (files_of companies files))
        && length (files_of simples files) == 1)

abbrev pub reference_at : CnpjDataset → ℕ
reference_at dataset = elim dataset.verified_at [ none ↦ dataset.discovered_at | some t ↦ t ]

abbrev pub reason_of : Bool → Bool → Bool → Bool → HealthReason
reason_of false complete stale fits = not_ready
reason_of true false stale fits = not_complete
reason_of true true true fits = too_old
reason_of true true false false = no_room
reason_of true true false true = all_good

abbrev pub state_of : HealthReason → HealthState
state_of all_good = healthy
state_of no_source = unavailable
state_of no_manifest = unavailable
state_of source_disabled = disabled
state_of _ = degraded

abbrev pub nothing_known : HealthReason → Option Source → CnpjManifestHealth
nothing_known reason source = record {
  state = state_of reason;
  reason = reason;
  source = source;
  dataset = none;
  establishment_parts = 0;
  company_parts = 0;
  simples_parts = 0;
  total_files = 0;
  total_bytes = 0;
  largest_file_bytes = 0;
  safe_capacity_bytes = pos 0;
  fits_storage = false;
  is_stale = false;
}

healthy-reason :
    (is_dataset_ready complete stale fits : Bool)
    → state_of (reason_of is_dataset_ready complete stale fits) ≡ healthy
    → (complete ≡ true) × (fits ≡ true)
healthy-reason false complete stale fits h = ground (arith, h)
healthy-reason true false stale fits h = ground (arith, h)
healthy-reason true true true fits h = ground (arith, h)
healthy-reason true true false false h = ground (arith, h)
healthy-reason true true false true h = (refl, refl)

-- `at` is the moment, `max_age_days` the setting `CNPJ_MANIFEST_MAX_AGE_DAYS`.
module _ (disk : Disk) (max_age_days at : ℕ) where
  unfoldable pub fits_storage : List CnpjDatasetFile → Bool
  fits_storage files = ltb 0 (largest files) && leb_ℤ (pos (largest files)) (safe_capacity disk)

  -- `reference_at < at - timedelta(days=...)`
  unfoldable pub is_stale : CnpjDataset → Bool
  is_stale dataset = ltb (reference_at dataset + max_age_days * 86400) at

  unfoldable pub dataset_health : Source → CnpjDataset → List CnpjDatasetFile → CnpjManifestHealth
  dataset_health source dataset files =
      let reason =
        reason_of (is_ready dataset.status) (is_complete files) (is_stale dataset)
          (fits_storage files) in
      record {
        state = state_of reason;
        reason = reason;
        source = some source;
        dataset = some dataset;
        establishment_parts = distinct (part_numbers (files_of establishments files));
        company_parts = distinct (part_numbers (files_of companies files));
        simples_parts = length (files_of simples files);
        total_files = length files;
        total_bytes = total_bytes files;
        largest_file_bytes = largest files;
        safe_capacity_bytes = safe_capacity disk;
        fits_storage = fits_storage files;
        is_stale = is_stale dataset;
      }

  abbrev pub files_in : CnpjDataset → List CnpjDatasetFile → List CnpjDatasetFile
  files_in dataset = filter_rows (λ f. f.dataset == dataset.id)

  unfoldable pub source_health :
      Source → Option CnpjDataset → List CnpjDatasetFile → CnpjManifestHealth
  source_health source none files = nothing_known no_manifest (some source)
  source_health source (some dataset) files = dataset_health source dataset (files_in dataset files)

  abbrev pub current_of : Source → List CnpjDataset → Option CnpjDataset
  current_of source = first_where (λ d. d.source == source.id && d.is_current)

  unfoldable pub known_health :
      Option Source → List CnpjDataset → List CnpjDatasetFile → CnpjManifestHealth
  known_health none datasets files = nothing_known no_source none
  known_health (some source) datasets files =
      if source.enabled
      then source_health source (current_of source datasets) files
      else nothing_known source_disabled (some source)

  unfoldable pub manifest_health :
      List Source → List CnpjDataset → List CnpjDatasetFile → CnpjManifestHealth
  manifest_health sources datasets files =
      known_health (first_where (λ s. str_eq s.key "receita-cnpj") sources) datasets files

  -- Every file passes the check before a download.
  abbrev pub AllAllowed : List CnpjDatasetFile → Type 0
  AllAllowed = All (λ f. (assess_download_capacity disk f.size_bytes).allowed ≡ true)

  below-Allowed :
      (n : ℕ) (files : List CnpjDatasetFile)
      → largest files ≤ n
      → (assess_download_capacity disk n).allowed ≡ true
      → AllAllowed files
  unfolding largest
  below-Allowed n [] h a = tt
  below-Allowed n (f ∷ files) h a =
      let (quota, reserve) = (assess_download_capacity-allowed disk n).0 a in
      (
        (assess_download_capacity-allowed disk f.size_bytes).1
            (omega (arith, h, quota), omega (arith, h, reserve)),
        below-Allowed n files (omega (arith, h)) a,
      )

  fits_storage-Allowed :
      (files : List CnpjDatasetFile) → fits_storage files ≡ true → AllAllowed files
  unfolding fits_storage
  fits_storage-Allowed files h =
      below-Allowed (largest files) files (omega arith)
        ((capacity_agrees disk (largest files) (ground (arith, h))).1 (ground (arith, h)))

  -- If the manifest of a dataset is healthy then its files are complete, and each of them passes
  -- the check before a download, on the disk as it is then.
  pub healthy-Allowed :
      (source : Source) (dataset : CnpjDataset) (files : List CnpjDatasetFile)
      → (dataset_health source dataset files).state ≡ healthy
      → (is_complete files ≡ true) × AllAllowed files
  unfolding dataset_health
  healthy-Allowed source dataset files h =
      let (complete, fits) = healthy-reason _ _ _ _ h in (complete, fits_storage-Allowed files fits)
