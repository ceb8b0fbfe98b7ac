-- ===== src/Discovery/Planning.antt =====
-- apps/discovery/planning.py: what a preview and a full run would download, before they start.
use sniper_synapse.Base.{
  ℕ, String, Bool, true, false, not, ◌&&◌, ◌||◌, Option, none, some, List, [], ◌∷◌, ◌++◌, ◌==◌, ltb,
  max, if◌then◌else◌, filter_rows, first_where, is_some, length, str_eq,
}
use sniper_synapse.Cnpj.Models.{
  Source, CnpjDataset, CnpjDatasetFile, is_ready, establishments, companies, simples, files_of,
  total_bytes,
}
use sniper_synapse.Cnpj.Storage.{Disk, Reason, CnpjCapacity, assess_download_capacity}
use sniper_synapse.Cnpj.Download.{DownloadError, Result, ok, err, Urls, validated_url}
use sniper_synapse.Discovery.Models.{DiscoveryQuery, SourceCoverage, Tables}
use sniper_synapse.Discovery.Coverage.{Scope, find_valid_coverage}

pub data PlanReason : Type 0 where
  local_coverage not_configured no_manifest no_establishments kill_switch already_covered
        incomplete_manifest :
      PlanReason
  bad_url : DownloadError → PlanReason
  capacity_reason : Reason → PlanReason

pub record PreviewPlan : Type 0 where
  pub available : Bool
  pub allowed : Bool
  pub reason : PlanReason
  pub dataset : Option CnpjDataset
  pub source_file : Option CnpjDatasetFile
  pub capacity : Option CnpjCapacity
  pub coverage : Option SourceCoverage

pub record FullPlan : Type 0 where
  pub available : Bool
  pub allowed : Bool
  pub reason : PlanReason
  pub dataset : Option CnpjDataset
  pub establishment_files : List CnpjDatasetFile
  pub company_files : List CnpjDatasetFile
  pub simples_file : Option CnpjDatasetFile
  pub total_transfer_bytes : ℕ
  pub peak_temp_bytes : ℕ
  pub capacity : Option CnpjCapacity

-- What the plans read: the settings, the tables, and the disk. `has_token` is
-- `CNPJ_WEBDAV_TOKEN` being set; `by_part` is `order_by("part_number")`.
pub record Site : Type 0 where
  pub urls : Urls
  pub has_token : Bool
  pub full_enabled : Bool
  pub disk : Disk
  pub now : ℕ
  pub scope : Scope
  pub tables : Tables
  pub sources : List Source
  pub datasets : List CnpjDataset
  pub files : List CnpjDatasetFile
  pub by_part : List CnpjDatasetFile → List CnpjDatasetFile

module _ (site : Site) where
  abbrev pub enabled_source : ℕ → Bool
  enabled_source id =
      is_some
        (first_where (λ s. s.id == id && (str_eq s.key "receita-cnpj" && s.enabled)) site.sources)

  -- One dataset of a source is current, so that the order of `first` is not used.
  unfoldable pub current_dataset : Option CnpjDataset
  current_dataset =
      first_where (λ d. enabled_source d.source && (is_ready d.status && d.is_current))
        site.datasets

  abbrev pub dataset_files : CnpjDataset → List CnpjDatasetFile
  dataset_files dataset = filter_rows (λ f. f.dataset == dataset.id) site.files

  abbrev pub configured : Bool
  configured = not (str_eq site.urls.base_value "") && site.has_token

  abbrev pub covered_by : Option CnpjDataset → Option DiscoveryQuery → Option SourceCoverage
  covered_by none query = none
  covered_by (some dataset) none = none
  covered_by (some dataset) (some query) =
      find_valid_coverage site.scope site.tables site.now dataset.source dataset.reference query

  abbrev pub refuse_preview : Bool → PlanReason → Option CnpjDataset → PreviewPlan
  refuse_preview available reason dataset = record {
    available = available;
    allowed = false;
    reason = reason;
    dataset = dataset;
    source_file = none;
    capacity = none;
    coverage = none;
  }

  -- `order_by("size_bytes", "part_number").first()`
  abbrev pub smaller : CnpjDatasetFile → CnpjDatasetFile → Bool
  smaller f g =
      ltb f.size_bytes g.size_bytes
      || (f.size_bytes == g.size_bytes && ltb f.part_number g.part_number)

  unfoldable pub smallest : CnpjDatasetFile → List CnpjDatasetFile → CnpjDatasetFile
  smallest best [] = best
  smallest best (f ∷ files) = smallest (if smaller f best then f else best) files

  unfoldable pub preview_of_file : CnpjDataset → CnpjDatasetFile → Result String → PreviewPlan
  preview_of_file dataset file (err e) = record (refuse_preview true (bad_url e) (some dataset)) {
    source_file = some file;
  }
  preview_of_file dataset file (ok _) =
      let capacity = assess_download_capacity site.disk file.size_bytes in
      record {
        available = true;
        allowed = capacity.allowed;
        reason = capacity_reason capacity.reason;
        dataset = some dataset;
        source_file = some file;
        capacity = some capacity;
        coverage = none;
      }

  unfoldable pub preview_of_files : CnpjDataset → List CnpjDatasetFile → PreviewPlan
  preview_of_files dataset [] = refuse_preview false no_establishments none
  preview_of_files dataset (f ∷ files) =
      let file = smallest f files in preview_of_file dataset file (validated_url site.urls file.url)

  unfoldable pub preview_of_dataset : Option CnpjDataset → PreviewPlan
  preview_of_dataset none = refuse_preview false no_manifest none
  preview_of_dataset (some dataset) =
      preview_of_files dataset (files_of establishments (dataset_files dataset))

  unfoldable pub preview_uncovered : Option CnpjDataset → Option SourceCoverage → PreviewPlan
  preview_uncovered dataset (some coverage) = record (refuse_preview true local_coverage dataset) {
    allowed = true;
    coverage = some coverage;
  }
  preview_uncovered dataset none =
      if configured then preview_of_dataset dataset else refuse_preview false not_configured none

  unfoldable pub build_preview_plan : Option DiscoveryQuery → PreviewPlan
  build_preview_plan query = preview_uncovered current_dataset (covered_by current_dataset query)

  abbrev pub refuse_full : Bool → PlanReason → Option CnpjDataset → FullPlan
  refuse_full available reason dataset = record {
    available = available;
    allowed = false;
    reason = reason;
    dataset = dataset;
    establishment_files = [];
    company_files = [];
    simples_file = none;
    total_transfer_bytes = 0;
    peak_temp_bytes = 0;
    capacity = none;
  }

  -- The loop of `validate_source_url`: the first error stops it.
  unfoldable pub first_bad_url : List CnpjDatasetFile → Option DownloadError
  first_bad_url [] = none
  first_bad_url (f ∷ files) = elim (validated_url site.urls f.url) [
    | err e ↦ some e
    | ok _ ↦ first_bad_url files
  ]

  -- `max(source_file.size_bytes for ...)` of at least one file
  unfoldable pub peak_bytes : List CnpjDatasetFile → ℕ
  peak_bytes [] = 0
  peak_bytes (f ∷ files) = max f.size_bytes (peak_bytes files)

  unfoldable pub full_of_parts :
      CnpjDataset
      → List CnpjDatasetFile
      → List CnpjDatasetFile
      → CnpjDatasetFile
      → Option DownloadError
      → FullPlan
  full_of_parts dataset es cs s (some e) = refuse_full true (bad_url e) (some dataset)
  full_of_parts dataset es cs s none =
      let all_files = es ++ (cs ++ s ∷ []) in
      let capacity = assess_download_capacity site.disk (peak_bytes all_files) in
      record {
        available = true;
        allowed = capacity.allowed;
        reason = capacity_reason capacity.reason;
        dataset = some dataset;
        establishment_files = es;
        company_files = cs;
        simples_file = some s;
        total_transfer_bytes = total_bytes all_files;
        peak_temp_bytes = peak_bytes all_files;
        capacity = some capacity;
      }

  unfoldable pub full_of_files :
      CnpjDataset → List CnpjDatasetFile → List CnpjDatasetFile → List CnpjDatasetFile → FullPlan
  full_of_files dataset es cs [] = refuse_full true incomplete_manifest (some dataset)
  full_of_files dataset es cs (s ∷ []) =
      if length es == 10 && length cs == 10
      then full_of_parts dataset es cs s (first_bad_url (es ++ (cs ++ s ∷ [])))
      else refuse_full true incomplete_manifest (some dataset)
  full_of_files dataset es cs (s ∷ t ∷ more) = refuse_full true incomplete_manifest (some dataset)

  unfoldable pub full_of_dataset : Option DiscoveryQuery → Option CnpjDataset → FullPlan
  full_of_dataset query none = refuse_full false no_manifest none
  full_of_dataset query (some dataset) =
      if is_some (covered_by (some dataset) query)
      then refuse_full true already_covered (some dataset)
      else full_of_files dataset (site.by_part (files_of establishments (dataset_files dataset)))
          (site.by_part (files_of companies (dataset_files dataset)))
          (files_of simples (dataset_files dataset))

  -- The first two tests: the switch `CNPJ_FULL_ENABLED`, then the origin's settings.
  unfoldable pub full_gate : Bool → Bool → Option DiscoveryQuery → FullPlan
  full_gate false is_configured query = refuse_full false kill_switch none
  full_gate true false query = refuse_full false not_configured none
  full_gate true true query = full_of_dataset query current_dataset

  unfoldable pub build_full_plan : Option DiscoveryQuery → FullPlan
  build_full_plan query = full_gate site.full_enabled configured query
