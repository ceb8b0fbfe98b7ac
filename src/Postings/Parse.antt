-- ===== src/Postings/Parse.antt =====
-- How apps/crawler/services.py reads one structured object of a page: `_scalar`,
-- `_job_posting_objects`, `_job_location`, `_job_date`, `_job_url` and `_job_identifier`.
use Prim.Native.String.{◌++◌ as str_append}
use sniper_synapse.Base.{
  ℕ, String, Bool, not, Option, none, some, List, [], ◌∷◌, ◌++◌, if◌then◌else◌, any, filter_rows,
  str_eq, map,
}
use sniper_synapse.Base.Results.{Result, ok, ◌>>=◌, or_raise}
use sniper_synapse.Scoring.Json.{
  Json, null, bool, num, text, list, dict, Entries, get, to_list, is_true,
}
use sniper_synapse.Crawler.Security.{Web, canonicalize_url}
use sniper_synapse.Crawler.Security as Security

-- The `ValueError` of a date that is well formed and no day of the calendar.
pub data PostingError : Type 0 where
  bad_date : PostingError

-- What the code calls. `squeeze` is `" ".join(value.split())`, `cut` a slice from the start, `str`
-- Python's on a value, and `html_text` the text that the HTML parser extracts. `parse_date` and
-- `parse_datetime` give a day; they are absent for a `ValueError`, and `some none` for a text of
-- another form. `identity` is the JSON text of a title, a location and a day.
pub record Markup : Type 0 where
  pub squeeze : String → String
  pub cut : ℕ → String → String
  pub str : Json → String
  pub casefold : String → String
  pub html_text : String → String
  pub parse_date : String → Option (Option ℕ)
  pub parse_datetime : String → Option (Option ℕ)
  pub identity : String → String → Option ℕ → String
  pub sha256 : String → String
  pub iexact : String → String → Bool
  pub text_before : String → String → Bool

-- `sep.join(texts)`
abbrev pub joined : String → List String → String
joined sep [] = ""
joined sep (t ∷ []) = t
joined sep (t ∷ u ∷ rest) = str_append t (str_append sep (joined sep (u ∷ rest)))

abbrev pub is_text : String → Bool
is_text s = not (str_eq s "")

abbrev pub null_or : Option Json → Json
null_or none = null
null_or (some v) = v

-- `d.get(a) or d.get(b)`
abbrev pub get_or : String → String → Entries → Json
get_or a b d = if is_true (null_or (get a d)) then null_or (get a d) else null_or (get b d)

-- `dict.fromkeys(texts)`
abbrev pub remove_text : String → List String → List String
remove_text t = filter_rows (λ s. not (str_eq s t))

abbrev pub distinct_texts : List String → List String
distinct_texts [] = []
distinct_texts (t ∷ rest) = t ∷ remove_text t (distinct_texts rest)

module _ (py : Markup) where
  -- `_scalar`
  unfoldable pub scalar : Json → String
  scalar (text s) = py.squeeze s
  scalar (num d) = py.squeeze (py.str (num d))
  scalar (bool b) = py.squeeze (py.str (bool b))
  scalar _ = ""

  -- `item.get("@type", [])`, and the values that it lists: another value is not iterated here.
  abbrev pub types_of : Option Json → List Json
  types_of (some (text s)) = text s ∷ []
  types_of (some (list items)) = to_list items
  types_of _ = []

  abbrev pub is_posting : Entries → Bool
  is_posting item =
      any (λ t. str_eq (py.casefold (scalar t)) "jobposting") (types_of (get "@type" item))

  -- `_job_posting_objects`
  unfoldable pub job_posting_objects : List Entries → List Entries
  job_posting_objects items = filter_rows is_posting items

  abbrev pub country_of : Option Json → Json
  country_of (some (dict d)) = get_or "name" "@id" d
  country_of v = null_or v

  abbrev pub parts_of : Entries → List String
  parts_of address = filter_rows is_text (
      scalar (null_or (get "addressLocality" address))
      ∷ scalar (null_or (get "addressRegion" address))
      ∷ scalar (country_of (get "addressCountry" address))
      ∷ [])

  -- `location.get("address", location)`
  abbrev pub rendered_address : Entries → Option Json → List String
  rendered_address location none = filter_rows is_text (joined "/" (parts_of location) ∷ [])
  rendered_address location (some (dict address)) =
      filter_rows is_text (joined "/" (parts_of address) ∷ [])
  rendered_address location (some _) = []

  unfoldable pub rendered : List Json → List String
  rendered [] = []
  rendered (dict location ∷ rest) =
      rendered_address location (get "address" location) ++ rendered rest
  rendered (_ ∷ rest) = rendered rest

  abbrev pub locations_of : Json → List Json
  locations_of (list items) = to_list items
  locations_of v = v ∷ []

  -- `_job_location`
  unfoldable pub job_location : Json → String
  job_location v = py.cut 500 (joined " · " (distinct_texts (rendered (locations_of v))))

  abbrev date_or : String → Option ℕ → Result PostingError (Option ℕ)
  date_or value (some day) = ok (some day)
  date_or value none = or_raise bad_date (py.parse_datetime value)

  -- `_job_date`
  unfoldable pub job_date : Json → Result PostingError (Option ℕ)
  job_date v =
      if is_text (scalar v)
      then (do parsed ← or_raise bad_date (py.parse_date (scalar v)); date_or (scalar v) parsed)
      else ok none

  -- `_job_identifier`
  unfoldable pub job_identifier : Json → String
  job_identifier (dict d) = py.cut 500 (
      scalar (
        if is_true (get_or "value" "name" d)
        then get_or "value" "name" d
        else null_or (get "@id" d)))
  job_identifier v = py.cut 500 (scalar v)

  abbrev url_or_empty : Security.Result String → String
  url_or_empty (Security.ok url) = py.cut 1000 url
  url_or_empty (Security.err _) = ""

  -- `_job_url`
  unfoldable pub job_url : Web → Json → String
  job_url web v = if is_text (scalar v) then url_or_empty (canonicalize_url web (scalar v)) else ""

  -- The employment types: a list is joined.
  unfoldable pub employment_type : Json → String
  employment_type (list items) =
      py.cut 120 (joined ", " (filter_rows is_text (map scalar (to_list items))))
  employment_type v = py.cut 120 (scalar v)
