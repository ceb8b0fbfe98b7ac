-- ===== src/Cnpj/Manifest.antt =====
-- `_classify_file` and `sync_latest_manifest` of apps/sources/cnpj/manifest.py. The listing of the
-- WebDAV server, the regular expressions and the order of texts are parameters.
mod Tests
use sniper_synapse.Base.{
  ℕ, zero, suc, ◌+◌, ◌≤◌, String, ◌≡◌, refl, sym, Bool, true, false, not, ◌&&◌, ◌||◌, Option, none,
  some, List, [], ◌∷◌, ◌++◌, ◌==◌, arith, if◌then◌else◌, Bool-cases, inl, inr, any, filter_rows,
  first_where, update_where, map, All, str_eq, is_some, ltb,
}
use sniper_synapse.Cnpj.Models.{
  Source, DatasetStatus, CnpjDataset, Kind, establishments, companies, simples, CnpjDatasetFile,
  same_kind,
}
use sniper_synapse.Cnpj.Health.{part_numbers, is_range_ten}

pub record WebDavEntry : Type 0 where
  pub name : String
  pub href : String
  pub is_collection : Bool
  pub size_bytes : Option ℕ
  pub etag : String

-- An entry of `classified`, with the URL that the client makes for it.
pub record Classified : Type 0 where
  pub entry : WebDavEntry
  pub kind : Kind
  pub part_number : ℕ
  pub url : String

pub data SyncError : Type 0 where
  no_competence incomplete no_source : SyncError

pub data Synced {ℓ} (A : Type ℓ) : Type ℓ where
  ok : A → Synced A
  err : SyncError → Synced A

-- `full_match k name` is the part number that the pattern of k finds in a name, 0 for Simples;
-- `is_competence` is `COMPETENCE_PATTERN`; `list` is the client's listing of the root or of a
-- folder.
pub record Client : Type 0 where
  pub full_match : Kind → String → Option ℕ
  pub is_competence : String → Bool
  pub text_before : String → String → Bool
  pub list_root : List WebDavEntry
  pub list : String → List WebDavEntry
  pub file_url : String → String → String

pub record Manifest : Type 0 where
  pub sources : List Source
  pub datasets : List CnpjDataset
  pub files : List CnpjDatasetFile

abbrev pub has_bytes : Option ℕ → Bool
has_bytes none = false
has_bytes (some n) = ltb 0 n

absurd_sync {ℓ} : {A : Type 0} {P : Type ℓ} (a : A) → ◌≡◌ {A = Synced A} (err incomplete) (ok a) → P
absurd_sync a h = ground (arith, h)

module _ (client : Client) where
  -- The first pattern of `FILE_PATTERNS` that the name matches.
  unfoldable pub match_patterns : List Kind → String → Option (Kind × ℕ)
  match_patterns [] name = none
  match_patterns (k ∷ kinds) name = elim (client.full_match k name) [
    | some part ↦ some (k, part)
    | none ↦ match_patterns kinds name
  ]

  unfoldable pub classify_file : WebDavEntry → Option (Kind × ℕ)
  classify_file entry =
      if entry.is_collection || not (has_bytes entry.size_bytes)
      then none
      else match_patterns (establishments ∷ companies ∷ simples ∷ []) entry.name

  unfoldable pub classify_all : String → List WebDavEntry → List Classified
  classify_all competence [] = []
  classify_all competence (e ∷ entries) =
      let rest = classify_all competence entries in
      elim (classify_file e) [
        | none ↦ rest
        | some k ↦
            record {
              entry = e;
              kind = k.0;
              part_number = k.1;
              url = client.file_url competence e.name;
            }
            ∷ rest
      ]

  -- `sorted(...)[-1]` of the names that are competences
  unfoldable pub newest : List WebDavEntry → Option String
  newest [] = none
  newest (e ∷ entries) =
      let rest = newest entries in
      if not (e.is_collection && client.is_competence e.name) then rest else elim rest [
        | none ↦ some e.name
        | some n ↦ some (if client.text_before n e.name then e.name else n)
      ]

  abbrev pub parts_of : Kind → List Classified → List ℕ
  parts_of k classified =
      map (λ (c : Classified). c.part_number) (filter_rows (λ c. same_kind c.kind k) classified)

  unfoldable pub has_all_parts : List Classified → Bool
  has_all_parts classified =
      is_range_ten (parts_of establishments classified)
      && (is_range_ten (parts_of companies classified)
          && any (λ c. same_kind c.kind simples) classified)

  abbrev pub is_dataset : ℕ → String → CnpjDataset → Bool
  is_dataset source reference d = d.source == source && str_eq d.reference reference

  abbrev pub verified : ℕ → CnpjDataset → CnpjDataset
  verified now d = record d {
    status = DatasetStatus.ready;
    discovered_at = now;
    verified_at = some now;
  }

  abbrev pub new_dataset : ℕ → ℕ → String → ℕ → CnpjDataset
  new_dataset id source reference now = record {
    id = id;
    source = source;
    reference = reference;
    status = DatasetStatus.ready;
    is_current = false;
    discovered_at = now;
    verified_at = some now;
  }

  -- `update_or_create` of the dataset: the table and the row.
  unfoldable pub save_dataset :
      ℕ → ℕ → String → ℕ → Option CnpjDataset → List CnpjDataset → List CnpjDataset × CnpjDataset
  save_dataset id source reference now none datasets =
      let d = new_dataset id source reference now in (datasets ++ d ∷ [], d)
  save_dataset id source reference now (some d) datasets =
      (update_where (λ e. e.id == d.id) (λ _. verified now d) datasets, verified now d)

  abbrev pub other_current : ℕ → ℕ → CnpjDataset → Bool
  other_current source id d = d.source == source && (d.is_current && not (d.id == id))

  abbrev pub set_current : Bool → CnpjDataset → CnpjDataset
  set_current b d = record d { is_current = b }

  -- The other current datasets of the source lose the flag, then the dataset gets it.
  unfoldable pub make_current : ℕ → ℕ → List CnpjDataset → List CnpjDataset
  make_current source id datasets =
      update_where (λ d. d.id == id) (set_current true)
        (update_where (other_current source id) (set_current false) datasets)

  abbrev pub is_file : ℕ → Kind → ℕ → CnpjDatasetFile → Bool
  is_file dataset kind part f =
      f.dataset == dataset && (same_kind f.kind kind && f.part_number == part)

  abbrev pub bytes_of : Option ℕ → ℕ
  bytes_of none = 0
  bytes_of (some n) = n

  -- `update_or_create` of a file; `id` is the primary key of a new row.
  unfoldable pub save_file : ℕ → ℕ → Classified → List CnpjDatasetFile → List CnpjDatasetFile
  save_file id dataset c [] =
      record {
        id = id;
        dataset = dataset;
        kind = c.kind;
        part_number = c.part_number;
        url = c.url;
        size_bytes = bytes_of c.entry.size_bytes;
        etag = c.entry.etag;
        checksum = "";
      }
      ∷ []
  save_file id dataset c (f ∷ files) =
      let rest = save_file id dataset c files in
      if is_file dataset c.kind c.part_number f
      then record f { url = c.url; size_bytes = bytes_of c.entry.size_bytes; etag = c.entry.etag }
        ∷ files
      else f ∷ rest

  unfoldable pub save_files : ℕ → ℕ → List Classified → List CnpjDatasetFile → List CnpjDatasetFile
  save_files id dataset [] files = files
  save_files id dataset (c ∷ classified) files =
      save_files (id + 1) dataset classified (save_file id dataset c files)

  -- `dataset.files.exclude(pk__in=seen).delete()`: the files of the dataset that no entry names go.
  unfoldable pub drop_unseen : ℕ → List Classified → List CnpjDatasetFile → List CnpjDatasetFile
  drop_unseen dataset classified = filter_rows (λ f.
      not (f.dataset == dataset) || any (λ c. is_file dataset c.kind c.part_number f) classified)

  -- `id` is a key above those in use, for the dataset and for the files.
  unfoldable pub write_manifest :
      ℕ → ℕ → String → List Classified → Option Source → Manifest → Synced (Manifest × CnpjDataset)
  write_manifest id now competence classified none m = err no_source
  write_manifest id now competence classified (some source) m =
      let saved =
        save_dataset id source.id competence now
          (first_where (is_dataset source.id competence) m.datasets) m.datasets in
      ok (
        record m {
          datasets = make_current source.id saved.1.id saved.0;
          files = drop_unseen saved.1.id classified (save_files id saved.1.id classified m.files);
        },
        set_current true saved.1,
      )

  unfoldable pub sync_competence :
      ℕ → ℕ → Manifest → Option String → Synced (Manifest × CnpjDataset)
  sync_competence id now m none = err no_competence
  sync_competence id now m (some competence) =
      let classified = classify_all competence (client.list competence) in
      if not (has_all_parts classified)
      then err incomplete
      else write_manifest id now competence classified
          (first_where (λ s. str_eq s.key "receita-cnpj" && s.enabled) m.sources) m

  unfoldable pub sync_latest_manifest : ℕ → ℕ → Manifest → Synced (Manifest × CnpjDataset)
  sync_latest_manifest id now m = sync_competence id now m (newest client.list_root)

  -- The row is not a current dataset of the source with another key.
  abbrev pub OnlyCurrent : ℕ → ℕ → CnpjDataset → Type 0
  OnlyCurrent source id d = other_current source id d ≡ false

  make_current-OnlyCurrent :
      (source id : ℕ) (datasets : List CnpjDataset)
      → All (OnlyCurrent source id) (make_current source id datasets)
  unfolding make_current
  make_current-OnlyCurrent source id [] = tt
  make_current-OnlyCurrent source id (d ∷ datasets) =
      (ground arith, make_current-OnlyCurrent source id datasets)

  abbrev pub Current : Manifest → CnpjDataset → Type 0
  Current m d =
      (d.is_current ≡ true)
      × (d.status ≡ DatasetStatus.ready)
      × All (OnlyCurrent d.source d.id) m.datasets

  first_where-Holds :
      (p : CnpjDataset → Bool) (datasets : List CnpjDataset) (d : CnpjDataset)
      → first_where p datasets ≡ some d
      → p d ≡ true
  first_where-Holds p [] d h = ground (arith, h)
  first_where-Holds p (e ∷ datasets) d h = elim (Bool-cases (p e)) [
    | inl y ↦ let same : e ≡ d = ground (arith, rw y at h) in rw (sym same) y
    | inr y ↦ first_where-Holds p datasets d (rw y at h)
  ]

  save_dataset-row :
      (id source : ℕ) (reference : String) (now : ℕ) (datasets : List CnpjDataset)
      (o : Option CnpjDataset)
      → first_where (is_dataset source reference) datasets ≡ o
      → ((save_dataset id source reference now o datasets).1.source ≡ source)
        × ((save_dataset id source reference now o datasets).1.status ≡ DatasetStatus.ready)
  unfolding save_dataset
  save_dataset-row id source reference now datasets none f = (refl, refl)
  save_dataset-row id source reference now datasets (some d) f =
      let held = first_where-Holds (is_dataset source reference) datasets d f in
      (ground (arith, held), refl)

  write_manifest-Current :
      (id now : ℕ) (competence : String) (classified : List Classified) (o : Option Source)
      (m m' : Manifest) (d : CnpjDataset)
      → write_manifest id now competence classified o m ≡ ok (m', d)
      → Current m' d
  unfolding write_manifest
  write_manifest-Current id now competence classified none m m' d h = ground (arith, h)
  write_manifest-Current id now competence classified (some source) m m' d h =
      let saved : List CnpjDataset × CnpjDataset =
        save_dataset id source.id competence now
          (first_where (is_dataset source.id competence) m.datasets) m.datasets in
      let (owner, status) =
        save_dataset-row id source.id competence now m.datasets
          (first_where (is_dataset source.id competence) m.datasets) refl in
      let row : d ≡ set_current true saved.1 = ground (arith, h) in
      let rows : m'.datasets ≡ make_current source.id saved.1.id saved.0 = ground (arith, h) in
      rw (row, rows)
        (refl, status, rw owner (make_current-OnlyCurrent source.id saved.1.id saved.0))

  competence-Current :
      (id now : ℕ) (m m' : Manifest) (o : Option String) (d : CnpjDataset)
      → sync_competence id now m o ≡ ok (m', d)
      → Current m' d
  unfolding sync_competence
  competence-Current id now m m' none d h = ground (arith, h)
  competence-Current id now m m' (some competence) d h =
      elim (Bool-cases (has_all_parts (classify_all competence (client.list competence)))) [
        | inr y ↦ absurd_sync (m', d) (rw y at h)
        | inl y ↦ write_manifest-Current id now competence _ _ m m' d (rw y at h)
      ]

  -- A sync that succeeds returns a dataset that is ready and current, and no other dataset of its
  -- source is current.
  pub sync_latest_manifest-Current :
      (id now : ℕ) (m m' : Manifest) (d : CnpjDataset)
      → sync_latest_manifest id now m ≡ ok (m', d)
      → Current m' d
  unfolding sync_latest_manifest
  sync_latest_manifest-Current id now m m' d h =
      competence-Current id now m m' (newest client.list_root) d h
