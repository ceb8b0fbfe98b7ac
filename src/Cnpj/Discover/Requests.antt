-- ===== src/Cnpj/Discover/Requests.antt =====
-- The checks of `execute_discover_cnpj` before the run starts, and the functions that read the
-- sources of its payload: apps/sources/cnpj/jobs.py.
pub mod Accepted
pub mod Sound
pub mod Checked
use sniper_synapse.Base.{
  ℕ, zero, suc, ◌+◌, String, Bool, true, false, not, ◌&&◌, ◌||◌, Option, none, some, List, [], ◌∷◌,
  ◌++◌, ◌==◌, ltb, if◌then◌else◌, any, all, filter_rows, first_where, length, map, str_eq, is_some,
}
use sniper_synapse.Base.Int.{ℤ, pos, negsuc}
use sniper_synapse.Base.Results.{Result, ok, err, ◌>>=◌, guard, or_raise}
use sniper_synapse.Scoring.Json.{
  Json, is_true, null, bool, num, text, list, dict, Items, nil, cons, Entries, empty, entry, get,
  to_list,
}
use sniper_synapse.Cnpj.Models.{
  Source, CnpjDataset, CnpjDatasetFile, Kind, establishments, companies, simples, is_ready,
  files_of,
}
use sniper_synapse.Cnpj.Readers.{CnpjEstablishmentFilter, Texts, is_nonempty, contains}
use sniper_synapse.Cnpj.Records.{Digits, make_filter}
use sniper_synapse.Discovery.Models.{QueryRun}

-- The exceptions of the checks: `KeyError`, a `ValueError` of `int`, `DoesNotExist`, and the
-- messages of the module, in its order.
pub data RequestError : Type 0 where
  missing_key bad_number no_row : RequestError
  not_lists both_given too_many_sources not_one_collection : RequestError
  no_manifest not_in_manifest : RequestError
  no_reference bad_mode bad_limit bad_prefix one_preview_source preview_complements : RequestError
  kill_switch bad_coverage missing_parts mixed_sources missing_files : RequestError

-- `str` and `int` on a JSON value.
pub record Values : Type 0 where
  pub str : Json → String
  pub int : Json → Option ℤ

pub record Settings : Type 0 where
  pub preview_max_results : ℕ
  pub max_persisted_matches : ℕ
  pub full_enabled : Bool

pub data Mode : Type 0 where
  preview full : Mode

-- A source: a path or a URL, and whether it is a URL.
abbrev pub SourceRef : Type 0
SourceRef = String × Bool

module _ (values : Values) where
  -- `payload.get(key) or []`, when it is a list: absent for another value.
  abbrev pub items_or_none : Option Json → Option (List Json)
  items_or_none none = some []
  items_or_none (some (list items)) = some (to_list items)
  items_or_none (some v) = if is_true v then none else some []

  -- `[payload[key]] if payload.get(key) else []`
  abbrev pub singular : Option Json → List Json
  singular none = []
  singular (some v) = if is_true v then v ∷ [] else []

  abbrev pub refs : Bool → List Json → List SourceRef
  refs is_url = map (λ v. (values.str v, is_url))

  unfoldable pub limited : ℕ → Bool → List Json → Result RequestError (List SourceRef)
  limited maximum is_url vs = do
    _ ← guard (not (ltb maximum (length vs))) too_many_sources
    ok (refs is_url vs)

  -- `values = paths or urls`
  unfoldable pub optional_of : ℕ → List Json → List Json → Result RequestError (List SourceRef)
  optional_of maximum [] urls = limited maximum (is_nonempty urls) urls
  optional_of maximum (path ∷ paths) [] = limited maximum false (path ∷ paths)
  optional_of maximum (path ∷ paths) (url ∷ urls) = err both_given

  -- `_optional_sources`
  unfoldable pub optional_sources :
      Entries → String → String → ℕ → Result RequestError (List SourceRef)
  optional_sources payload path_key url_key maximum = do
    paths ← or_raise not_lists (items_or_none (get path_key payload))
    urls ← or_raise not_lists (items_or_none (get url_key payload))
    optional_of maximum paths urls

  -- The groups that are not empty, with `is_url` of each.
  abbrev pub groups : List Json → List Json → List Json → List Json → List (List Json × Bool)
  groups singular_paths singular_urls plural_paths plural_urls =
      filter_rows (λ g. is_nonempty g.0)
        ((singular_paths, false)
          ∷ (singular_urls, true)
          ∷ (plural_paths, false)
          ∷ (plural_urls, true)
          ∷ [])

  unfoldable pub only_group : List (List Json × Bool) → Result RequestError (List SourceRef)
  only_group (g ∷ []) = limited 10 g.1 g.0
  only_group _ = err not_one_collection

  -- `_establishment_sources`
  unfoldable pub establishment_sources : Entries → Result RequestError (List SourceRef)
  establishment_sources payload = do
    paths ← or_raise not_lists (items_or_none (get "source_paths" payload))
    urls ← or_raise not_lists (items_or_none (get "source_urls" payload))
    only_group (
        groups (singular (get "source_path" payload)) (singular (get "source_url" payload)) paths
          urls)

-- `[value for value, is_url in sources if is_url]`
unfoldable pub urls_of : List SourceRef → List String
urls_of [] = []
urls_of ((value, is_url) ∷ rest) =
    let later = urls_of rest in if is_url then value ∷ later else later

-- `set(...).issubset(...)`
abbrev pub is_subset : List String → List String → Bool
is_subset xs ys = all (λ x. contains x ys) xs

abbrev pub has_duplicates : List String → Bool
has_duplicates [] = false
has_duplicates (x ∷ xs) = contains x xs || has_duplicates xs

-- What the job reads of the database.
pub record Registry : Type 0 where
  pub sources : List Source
  pub datasets : List CnpjDataset
  pub files : List CnpjDatasetFile
  pub runs : List QueryRun

abbrev pub allowed_urls : Registry → CnpjDataset → Kind → List String
allowed_urls db dataset kind =
    map (λ f. f.url) (files_of kind (filter_rows (λ f. f.dataset == dataset.id) db.files))

-- The sources of the three kinds.
pub record Requested : Type 0 where
  pub of_establishments : List SourceRef
  pub of_companies : List SourceRef
  pub of_simples : List SourceRef

abbrev pub of_kind : Requested → Kind → List SourceRef
of_kind r establishments = r.of_establishments
of_kind r companies = r.of_companies
of_kind r simples = r.of_simples

abbrev pub kinds : List Kind
kinds = establishments ∷ companies ∷ simples ∷ []

abbrev pub all_sources : Requested → List SourceRef
all_sources r = r.of_establishments ++ (r.of_companies ++ r.of_simples)

abbrev pub kind_in_manifest : Registry → CnpjDataset → Requested → Kind → Bool
kind_in_manifest db dataset r kind =
    is_subset (urls_of (of_kind r kind)) (allowed_urls db dataset kind)

abbrev pub is_ready_for : ℕ → String → CnpjDataset → Bool
is_ready_for source reference d =
    d.source == source && (str_eq d.reference reference && is_ready d.status)

-- `_validate_manifest_urls`: at most one dataset has a source and a reference.
unfoldable pub validate_manifest_urls :
    Registry → ℕ → String → Requested → Result RequestError (Option CnpjDataset)
validate_manifest_urls db source reference r =
    if any (λ kind. is_nonempty (urls_of (of_kind r kind))) kinds
    then (do
      dataset ← or_raise no_manifest (first_where (is_ready_for source reference) db.datasets)
      _ ← guard (all (kind_in_manifest db dataset r) kinds) not_in_manifest
      ok (some dataset))
    else ok none

-- `len(requested) == len(set(requested)) and set(requested) == allowed`
abbrev pub is_every_file : Registry → CnpjDataset → Requested → Kind → Bool
is_every_file db dataset r kind =
    let requested = urls_of (of_kind r kind) in
    not (has_duplicates requested)
    && (is_subset requested (allowed_urls db dataset kind)
        && is_subset (allowed_urls db dataset kind) requested)

-- The checks of a complete coverage with remote sources.
unfoldable pub check_every_file :
    Registry → Requested → Option CnpjDataset → Result {0} RequestError Unit
check_every_file db r none = err missing_files
check_every_file db r (some dataset) = do
  _ ← guard (all (λ s. s.1) (all_sources r)) mixed_sources
  guard (all (is_every_file db dataset r) kinds) missing_files
