-- ===== src/Discovery/Plans.antt =====
-- What an allowed plan guarantees: apps/discovery/planning.py.
use sniper_synapse.Base.{
  ℕ, ◌+◌, ◌≤◌, String, ◌≡◌, ◌⊎◌, refl, Bool, true, false, ◌&&◌, Option, none, some, List, [], ◌∷◌,
  ◌++◌, ◌==◌, arith, Bool-cases, inl, inr, All, is_some, length,
}
use sniper_synapse.Cnpj.Models.{CnpjDataset, CnpjDatasetFile}
use sniper_synapse.Cnpj.Storage.{assess_download_capacity-allowed}
use sniper_synapse.Cnpj.Download.{DownloadError, Result, ok, err, validated_url}
use sniper_synapse.Discovery.Models.{DiscoveryQuery}
use sniper_synapse.Discovery.Planning.{
  FullPlan, Site, first_bad_url, peak_bytes, full_of_parts, full_of_files, full_of_dataset,
  full_gate, build_full_plan, configured, covered_by, current_dataset,
}

module _ (site : Site) where
  abbrev pub UrlValid : CnpjDatasetFile → Type 0
  UrlValid f = (u : String) × (validated_url site.urls f.url ≡ ok u)

  -- A file that the plan downloads: its URL is valid, and it fits the quota and the reserve.
  abbrev pub Fetchable : CnpjDatasetFile → Type 0
  Fetchable f =
      UrlValid f
      × (f.size_bytes ≤ site.disk.max_temp_bytes)
      × (f.size_bytes + site.disk.min_free_bytes ≤ site.disk.free_bytes)

  abbrev simples_list : Option CnpjDatasetFile → List CnpjDatasetFile
  simples_list none = []
  simples_list (some s) = s ∷ []

  abbrev pub plan_files : FullPlan → List CnpjDatasetFile
  plan_files p = p.establishment_files ++ (p.company_files ++ simples_list p.simples_file)

  abbrev pub Complete : FullPlan → Type 0
  Complete p =
      (length p.establishment_files ≡ 10)
      × (length p.company_files ≡ 10)
      × (is_some p.simples_file ≡ true)
      × All Fetchable (plan_files p)

  Result-cases :
      (r : Result String) → ((u : String) × (r ≡ ok u)) ⊎ ((e : DownloadError) × (r ≡ err e))
  Result-cases (ok u) = inl (u, refl)
  Result-cases (err e) = inr (e, refl)

  first_bad_url-All :
      (files : List CnpjDatasetFile) → first_bad_url site files ≡ none → All UrlValid files
  unfolding first_bad_url
  first_bad_url-All [] h = tt
  first_bad_url-All (f ∷ files) h = elim (Result-cases (validated_url site.urls f.url)) [
    | inl u ↦ (u, first_bad_url-All files (rw (u.1, first_bad_url) at h))
    | inr e ↦ ground (arith, rw (e.1, first_bad_url) at h)
  ]

  All-Fetchable :
      (n : ℕ) (files : List CnpjDatasetFile)
      → peak_bytes site files ≤ n
      → n ≤ site.disk.max_temp_bytes
      → n + site.disk.min_free_bytes ≤ site.disk.free_bytes
      → All UrlValid files
      → All Fetchable files
  unfolding peak_bytes
  All-Fetchable n [] h k l u = tt
  All-Fetchable n (f ∷ files) h k l u = (
    (u.0, omega (arith, h, k), omega (arith, h, l)),
    All-Fetchable n files (omega (arith, h)) k l u.1,
  )

  full_of_parts-Complete :
      (dataset : CnpjDataset) (es cs : List CnpjDatasetFile) (s : CnpjDatasetFile)
      (bad : Option DownloadError)
      → first_bad_url site (es ++ (cs ++ s ∷ [])) ≡ bad
      → length es ≡ 10
      → length cs ≡ 10
      → (full_of_parts site dataset es cs s bad).allowed ≡ true
      → Complete (full_of_parts site dataset es cs s bad)
  unfolding full_of_parts
  full_of_parts-Complete dataset es cs s (some e) b h k a = ground (arith, a)
  full_of_parts-Complete dataset es cs s none b h k a =
      let (fits, reserve) = (assess_download_capacity-allowed site.disk _).0 a in
      (
        h,
        k,
        refl,
        All-Fetchable (peak_bytes site (es ++ (cs ++ s ∷ []))) (es ++ (cs ++ s ∷ [])) (omega arith)
            fits reserve (first_bad_url-All (es ++ (cs ++ s ∷ [])) b),
      )

  full_of_files-Complete :
      (dataset : CnpjDataset) (es cs ss : List CnpjDatasetFile)
      → (full_of_files site dataset es cs ss).allowed ≡ true
      → Complete (full_of_files site dataset es cs ss)
  unfolding full_of_files
  full_of_files-Complete dataset es cs [] a = ground (arith, a)
  full_of_files-Complete dataset es cs (s ∷ []) a =
      elim (Bool-cases (length es == 10 && length cs == 10)) [
        | inl y ↦ rw y (
            full_of_parts-Complete dataset es cs s _ refl (ground (arith, y)) (ground (arith, y))
              (rw y at a))
        | inr y ↦ ground (arith, rw y at a)
      ]
  full_of_files-Complete dataset es cs (s ∷ t ∷ more) a = ground (arith, a)

  full_of_dataset-Complete :
      (query : Option DiscoveryQuery) (dataset : Option CnpjDataset)
      → (full_of_dataset site query dataset).allowed ≡ true
      → Complete (full_of_dataset site query dataset)
  unfolding full_of_dataset
  full_of_dataset-Complete query none a = ground (arith, a)
  full_of_dataset-Complete query (some dataset) a =
      elim (Bool-cases (is_some (covered_by site (some dataset) query))) [
        | inl y ↦ ground (arith, rw y at a)
        | inr y ↦ rw y (full_of_files-Complete dataset _ _ _ (rw y at a))
      ]

  full_gate-Complete :
      (enabled is_configured : Bool) (query : Option DiscoveryQuery)
      → (full_gate site enabled is_configured query).allowed ≡ true
      → (enabled ≡ true)
        × (is_configured ≡ true)
        × Complete (full_gate site enabled is_configured query)
  unfolding full_gate
  full_gate-Complete false is_configured query a = ground (arith, a)
  full_gate-Complete true false query a = ground (arith, a)
  full_gate-Complete true true query a =
      (refl, refl, full_of_dataset-Complete query (current_dataset site) a)

  -- A full plan that is allowed has ten files of establishments, ten of companies and the file of
  -- Simples, and each of them has a valid URL and fits the temporary quota and the free space; the
  -- switch for full runs is on and the origin is configured.
  pub build_full_plan-Complete :
      (query : Option DiscoveryQuery)
      → (build_full_plan site query).allowed ≡ true
      → (site.full_enabled ≡ true)
        × (configured site ≡ true)
        × Complete (build_full_plan site query)
  unfolding build_full_plan
  build_full_plan-Complete query a = full_gate-Complete site.full_enabled (configured site) query a
