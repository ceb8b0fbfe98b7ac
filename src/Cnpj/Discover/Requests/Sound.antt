-- ===== src/Cnpj/Discover/Requests/Sound.antt =====
-- What single checks of `execute_discover_cnpj` (apps/sources/cnpj/jobs.py) guarantee.
use sniper_synapse.Base.{
  ℕ, zero, suc, ◌≤◌, String, ◌≡◌, ◌⊎◌, refl, sym, ap, arith, Bool, true, false, not, ◌&&◌, Option,
  none, some, ◌==◌, any, all, first_where, length, str_eq, Bool-cases, inl, inr,
}
use sniper_synapse.Base.Int.{ℤ, pos, negsuc}
use sniper_synapse.Base.Results.{ok, guard, or_raise, bound, guarded, ok_inj, raised_none}
use sniper_synapse.Scoring.Json.{Json}
use sniper_synapse.Cnpj.Models.{CnpjDataset}
use sniper_synapse.Cnpj.Readers.{is_nonempty}
use sniper_synapse.Cnpj.Discover.Requests.{
  RequestError, Values, Settings, Mode, preview, full, Registry, Requested, of_kind, kinds,
  all_sources, urls_of, kind_in_manifest, is_ready_for, is_every_file, validate_manifest_urls,
  check_every_file, no_manifest, not_in_manifest, mixed_sources, missing_files, bad_coverage,
  missing_parts,
}
use sniper_synapse.Cnpj.Discover.Requests.Accepted.{
  Accepted, is_preview, configured_limit, in_range, read_int, check_mode, check_parts,
  check_coverage, check_remote,
}

abbrev pub is_remote : Requested → Bool
is_remote r = any (λ kind. is_nonempty (urls_of (of_kind r kind))) kinds

-- Every URL of the request is one of its kind in the ready manifest of the competence.
abbrev pub InManifest : Registry → ℕ → String → Requested → Type 0
InManifest db source reference r =
    (is_remote r ≡ false)
    ⊎ ((d : CnpjDataset) × (first_where (is_ready_for source reference) db.datasets ≡ some d)
        × (all (kind_in_manifest db d r) kinds ≡ true))

some_inj : (a b : CnpjDataset) → some a ≡ some b → a ≡ b
some_inj a b h = ap (λ o. elim o [ none ↦ a | some x ↦ x ]) h

abbrev pub Validated : Registry → ℕ → String → Requested → Option CnpjDataset → Type 0
Validated db source reference r o =
    ((is_remote r ≡ false) × (o ≡ none))
    ⊎ ((d : CnpjDataset) × (o ≡ some d)
        × (first_where (is_ready_for source reference) db.datasets ≡ some d)
        × (all (kind_in_manifest db d r) kinds ≡ true))

pub validate-Validated :
    (db : Registry) (source : ℕ) (reference : String) (r : Requested) (o : Option CnpjDataset)
    → validate_manifest_urls db source reference r ≡ ok o
    → Validated db source reference r o
unfolding validate_manifest_urls
validate-Validated db source reference r o h = elim (Bool-cases (is_remote r)) [
  | inr n ↦ inl (n, sym (ok_inj {E = RequestError} none o (rw n at h)))
  | inl y ↦
      let (d, found, after) =
        bound (or_raise no_manifest (first_where (is_ready_for source reference) db.datasets)) _
          (rw y at h) in
      let (u, listed, done) =
        bound (guard (all (kind_in_manifest db d r) kinds) not_in_manifest) _ after in
      inr (
        d,
        sym (ok_inj {E = RequestError} (some d) o done),
        raised_none no_manifest (first_where (is_ready_for source reference) db.datasets) d found,
        guarded (all (kind_in_manifest db d r) kinds) not_in_manifest listed,
      )
]

pub Validated-InManifest :
    (db : Registry) (source : ℕ) (reference : String) (r : Requested) (o : Option CnpjDataset)
    → Validated db source reference r o
    → InManifest db source reference r
Validated-InManifest db source reference r o (inl (n, _)) = inl n
Validated-InManifest db source reference r o (inr (d, _, found, listed)) = inr (d, found, listed)

-- Each kind of file is requested once for every file of the ready manifest.
abbrev pub EveryFile : Registry → ℕ → String → Requested → Type 0
EveryFile db source reference r =
    (d : CnpjDataset) × (first_where (is_ready_for source reference) db.datasets ≡ some d)
    × (all (is_every_file db d r) kinds ≡ true)

pub check_remote-EveryFile :
    (b : Bool) (db : Registry) (source : ℕ) (reference : String) (r : Requested)
    (o : Option CnpjDataset) {u : Unit {0}}
    → Validated db source reference r o
    → check_remote b db r o ≡ ok u
    → (b ≡ false) ⊎ EveryFile db source reference r
unfolding check_remote check_every_file
check_remote-EveryFile false db source reference r o v h = inl refl
check_remote-EveryFile true db source reference r none v h = ground (arith, h)
check_remote-EveryFile true db source reference r (some d) (inl (_, n)) h = ground (arith, n)
check_remote-EveryFile true db source reference r (some d) (inr (d', e, found, _)) h =
    let same : d ≡ d' = some_inj d d' e in
    let (u, _, every) = bound (guard (all (λ s. s.1) (all_sources r)) mixed_sources) _ h in
    inr (d, rw same found, guarded (all (is_every_file db d r) kinds) missing_files every)

pub in_range-bounds :
    (e : RequestError) (limit : ℕ) (n : ℤ) (m : ℕ)
    → in_range e limit n ≡ ok m
    → (1 ≤ m) × (m ≤ limit)
unfolding in_range
in_range-bounds e limit (negsuc n) m h = ground (arith, h)
in_range-bounds e limit (pos zero) m h = ground (arith, h)
in_range-bounds e limit (pos (suc n)) m h = ground (arith, h)

-- One establishment source and nothing else.
abbrev pub OneSource : Requested → Type 0
OneSource r =
    (length r.of_establishments ≡ 1)
    × (is_nonempty r.of_companies ≡ false)
    × (is_nonempty r.of_simples ≡ false)

module _ (settings : Settings) where
  abbrev pub ModeAllows : Mode → Requested → Type 0
  ModeAllows preview r = OneSource r
  ModeAllows full r = (any (λ s. s.1) (all_sources r) ≡ false) ⊎ (settings.full_enabled ≡ true)

  pub check_mode-ModeAllows :
      (mode : Mode) (r : Requested) {u : Unit {0}}
      → check_mode settings mode r ≡ ok u
      → ModeAllows mode r
  unfolding check_mode
  check_mode-ModeAllows preview r h = ground (arith, h)
  check_mode-ModeAllows full r h = ground (arith, h)

-- A complete coverage is asked in full mode, with one to ten parts.
abbrev pub FullParts : Mode → Requested → Type 0
FullParts mode r =
    (is_preview mode ≡ false) × (1 ≤ length r.of_establishments) × (length r.of_establishments ≤ 10)

pub check_coverage-FullParts :
    (values : Values) (b : Bool) (mode : Mode) (r : Requested) (expected : Option Json)
    {u : Unit {0}}
    → check_coverage values b mode r expected ≡ ok u
    → (b ≡ false) ⊎ FullParts mode r
unfolding check_coverage check_parts
check_coverage-FullParts values false mode r expected h = inl refl
check_coverage-FullParts values true mode r expected h =
    let (n, _, ranged) = bound (read_int values 10 expected) _ h in
    let (u, mode_test, rest) = bound (guard (not (is_preview mode)) bad_coverage) _ ranged in
    let (parts, range, last) = bound (in_range bad_coverage 10 n) _ rest in
    let (low, high) = in_range-bounds bad_coverage 10 n parts range in
    let is_full : not (is_preview mode) ≡ true =
      guarded (not (is_preview mode)) bad_coverage mode_test in
    let counted : (length r.of_establishments == parts) ≡ true =
      guarded (length r.of_establishments == parts) missing_parts last in
    inr (ground (arith, is_full), ground (arith, counted, low), ground (arith, counted, high))

module _ (settings : Settings) where
  -- `max_results` is within the limit of its mode, and there is a reference.
  abbrev pub Limited : Accepted → Type 0
  Limited a =
      (1 ≤ a.max_results)
      × (a.max_results ≤ configured_limit settings a.mode)
      × (str_eq a.dataset_reference "" ≡ false)

  -- The remote sources are in the manifest, the mode allows the sources, a complete coverage is a
  -- full run of all the parts, and, when it is remote, requests every file of the manifest.
  abbrev pub IsChecked : Registry → Accepted → Type 0
  IsChecked db a =
      InManifest db a.source.id a.dataset_reference a.requested
      × ModeAllows settings a.mode a.requested
      × ((a.coverage_complete ≡ false) ⊎ FullParts a.mode a.requested)
      × (((a.coverage_complete && any (λ s. s.1) (all_sources a.requested)) ≡ false)
          ⊎ EveryFile db a.source.id a.dataset_reference a.requested)
