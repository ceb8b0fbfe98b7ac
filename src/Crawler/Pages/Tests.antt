-- ===== src/Crawler/Pages/Tests.antt =====
-- A page with a new text, and a page that goes back to its first text.
use sniper_synapse.Base.{
  ℕ, String, ◌≡◌, refl, Bool, true, false, none, some, List, [], ◌∷◌, All, first_where,
}
use sniper_synapse.Crawler.Pages.{
  WebsitePage, home, SourceRecord, PageTables, Visit, CrawlOutcome, stored, Content, new_page,
  store_page, with_record, is_current_of, seen, outdated, NoOther, store_page-NoOther,
  revisit_leaves_two_current,
}

abbrev plain : Content
plain = record { casefold_path = λ s. "/"; occurs = λ a b. false; sha256 = λ s. s }

abbrev visit : String → Visit
visit text = record { url = "u"; status = 200; content_type = "text/html"; title = ""; text = text }

abbrev version : ℕ → String → Bool → WebsitePage
version id text current = record {
  id = id;
  company = 1;
  source_record = id;
  url = "u";
  page_type = home;
  title = "";
  extracted_text = text;
  content_hash = text;
  http_status = 200;
  content_type = "text/html";
  observed_at = 0;
  last_seen_at = 0;
  current = current;
}

abbrev text_record : ℕ → String → SourceRecord
text_record id text = record {
  id = id;
  source = 1;
  external_id = "u";
  company = 1;
  payload_hash = text;
  title = "";
  content_type = "text/html";
  http_status = 200;
  observed_at = 0;
}

abbrev tables : List WebsitePage → PageTables
tables pages = record { website_source = some 1; records = []; pages = pages }

abbrev first_version : PageTables
first_version = tables (version 1 "A" true ∷ [])

abbrev made : WebsitePage
made = new_page plain 2 9 1 "u" (visit "B") (text_record 2 "B")

abbrev two_versions : PageTables
two_versions = tables (outdated plain (version 1 "A" true) ∷ made ∷ [])

abbrev changed : CrawlOutcome
changed = record { page = made; page_created = true; content_changed = true }

replaced :
    store_page plain 2 9 1 "u" (visit "B") (text_record 2 "B") first_version none
    ≡ stored (two_versions, changed)
unfolding store_page
replaced = refl

store_page-NoOther_example :
    (first_where (is_current_of plain 1 "u") two_versions.pages ≡ some made)
    × All (NoOther plain made) two_versions.pages
store_page-NoOther_example =
    store_page-NoOther plain 2 9 1 "u" (visit "B") (text_record 2 "B") first_version two_versions
      changed replaced

abbrev older : WebsitePage
older = version 1 "A" false

abbrev newer : WebsitePage
newer = version 2 "B" true

revisit_leaves_two_current_example :
    (with_record plain 3 9 1 "u" (visit "A") (text_record 1 "A") (tables (older ∷ newer ∷ []))
      ≡ stored (
        tables (seen plain 9 older ∷ newer ∷ []),
        record { page = seen plain 9 older; page_created = false; content_changed = false },
      ))
    × (is_current_of plain 1 "u" (seen plain 9 older) ≡ true)
    × (is_current_of plain 1 "u" newer ≡ true)
revisit_leaves_two_current_example =
    revisit_leaves_two_current plain 3 9 1 "u" (visit "A") (text_record 1 "A")
      (tables (older ∷ newer ∷ [])) older newer refl refl refl refl refl
