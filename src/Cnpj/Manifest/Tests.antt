-- ===== src/Cnpj/Manifest/Tests.antt =====
-- A sync against a listing of 21 files, over a table with an older current dataset.
use sniper_synapse.Base.{
  ℕ, ◌+◌, String, ◌≡◌, refl, Bool, true, false, Option, none, some, List, [], ◌∷◌, ◌++◌,
  if◌then◌else◌, map, str_eq,
}
use sniper_synapse.Cnpj.Models.{
  Source, DatasetStatus, CnpjDataset, Kind, establishments, companies, simples, CnpjDatasetFile,
}
use sniper_synapse.Cnpj.Manifest.{
  WebDavEntry, Client, Manifest, ok, sync_latest_manifest, sync_competence, write_manifest,
  save_dataset, save_files, drop_unseen, make_current, newest, has_all_parts, classify_all,
  classify_file, match_patterns, Current, sync_latest_manifest-Current,
}

abbrev entry : Bool → String → WebDavEntry
entry is_collection name = record {
  name = name;
  href = "";
  is_collection = is_collection;
  size_bytes = some 3;
  etag = "";
}

abbrev establishment_names : List String
establishment_names = "e0" ∷ "e1" ∷ "e2" ∷ "e3" ∷ "e4" ∷ "e5" ∷ "e6" ∷ "e7" ∷ "e8" ∷ "e9" ∷ []

abbrev company_names : List String
company_names = "c0" ∷ "c1" ∷ "c2" ∷ "c3" ∷ "c4" ∷ "c5" ∷ "c6" ∷ "c7" ∷ "c8" ∷ "c9" ∷ []

abbrev index_of : ℕ → String → List String → Option ℕ
index_of n s [] = none
index_of n s (t ∷ names) =
    let rest = index_of (n + 1) s names in if str_eq s t then some n else rest

abbrev names_of : Kind → List String
names_of establishments = establishment_names
names_of companies = company_names
names_of simples = "s" ∷ []

abbrev receita : Client
receita = record {
  full_match = λ k name. index_of 0 name (names_of k);
  is_competence = λ name. true;
  text_before = λ a b. false;
  list_root = entry true "2026-02" ∷ [];
  list = λ folder. map (entry false) (establishment_names ++ (company_names ++ "s" ∷ []));
  file_url = λ folder name. name;
}

abbrev source : Source
source = record {
  id = 1;
  key = "receita-cnpj";
  name = "Receita";
  adapter_path = "";
  enabled = true;
  created_at = 0;
}

abbrev dataset : ℕ → String → Bool → ℕ → CnpjDataset
dataset id reference is_current now = record {
  id = id;
  source = 1;
  reference = reference;
  status = DatasetStatus.ready;
  is_current = is_current;
  discovered_at = now;
  verified_at = some now;
}

abbrev before_sync : Manifest
before_sync = record {
  sources = source ∷ [];
  datasets = dataset 1 "2026-01" true 0 ∷ [];
  files = [];
}

abbrev synced_files : List CnpjDatasetFile
synced_files = save_files receita 5 5 (classify_all receita "2026-02" (receita.list "2026-02")) []

abbrev after_sync : Manifest
after_sync = record {
  sources = source ∷ [];
  datasets = dataset 1 "2026-01" false 0 ∷ dataset 5 "2026-02" true 9 ∷ [];
  files =
      drop_unseen receita 5 (classify_all receita "2026-02" (receita.list "2026-02")) synced_files;
}

synced : sync_latest_manifest receita 5 9 before_sync ≡ ok (after_sync, dataset 5 "2026-02" true 9)
unfolding sync_latest_manifest sync_competence newest has_all_parts classify_all classify_file
    match_patterns write_manifest save_dataset make_current
synced = refl

sync_latest_manifest-Current_example : Current receita after_sync (dataset 5 "2026-02" true 9)
sync_latest_manifest-Current_example =
    sync_latest_manifest-Current receita 5 9 before_sync after_sync (dataset 5 "2026-02" true 9)
      synced
