-- ===== src/Lib.antt =====
-- A model of SNIPER-Synapse: a Django application that discovers companies in public sources,
-- collects evidence about them, and scores them as sales opportunities.
--
-- The program is a web site, a database and one or more workers. A user's action or a service puts
-- a job in a table; a worker claims it under a lease, runs its handler and closes it. The handlers
-- download the Receita CNPJ files, fetch company websites, detect signals and calculate scores. All
-- state is in database tables, and each operation is a transaction over them. Here a table is a list
-- of rows or a record of such lists, a transaction is a function from the tables to a result with
-- the new tables, and an exception is an error value, which leaves the tables as they were.
--
-- Which file is about what:
-- - Jobs: apps/jobs. Jobs/Models has the rows, Jobs/Services claim_next_job, renew_job_lease,
--   mark_succeeded and mark_failed, Jobs/Worker the loop of the run_worker command, with the end of
--   one iteration in Rounds. Jobs/Invariant and Jobs/Keeps are about valid queues, Jobs/Order and
--   Jobs/Lease about what a claim picks and a failure schedules, Jobs/Traces about the interleaved
--   transactions of several workers (a step relation) and what they do to a row, with the row of a
--   claimed job under the others' transactions in the child Excludes, Jobs/Recovery about expired
--   leases, Jobs/Enqueue enqueue_company_score of apps/scoring/services.py and
--   enqueue_signal_detection of apps/signals/services.py. The counters that execute_job and the
--   handlers write to a job's row are steps of Jobs/Traces.
-- - Scoring: apps/scoring. Scoring/Json and Scoring/Decimal are the values, Scoring/Condition
--   condition_matches, with its leaves in a child, Scoring/Validate _validate_condition,
--   Scoring/Decay decay_multiplier, Scoring/Group the cap of a group, Scoring/Engine the rules over
--   the facts, Scoring/Score calculate_score, Scoring/RuleSets clone_active_rule_set and
--   publish_rule_set.
-- - Crawler: apps/crawler/security.py in Crawler/Security, fetch_url of apps/crawler/client.py in
--   Crawler/Client, with its rounds, its connections and its result in the children;
--   of apps/crawler/services.py, persist_page in Crawler/Pages and discover_priority_urls in
--   Crawler/Links.
-- - Cnpj: apps/sources/cnpj. Cnpj/Storage has the capacity of a download and Cnpj/Download the
--   download itself, both of storage.py, with its bounds in Quota and what it leaves in Cleanup;
--   Cnpj/Health is health.py; Cnpj/Readers, Cnpj/Scan and Cnpj/Records are the readers of
--   establishments.py and complements.py; Cnpj/Manifest is sync_latest_manifest of manifest.py.
--   Cnpj/Catalog has the tables of apps/companies/models.py and apps/sources/models.py that a run
--   writes, Cnpj/Ingestion is ingestion.py. Cnpj/Discover is the job execute_discover_cnpj of
--   jobs.py: Requests has the checks of the payload, Establishments and Complements the loops over
--   the files, Execute the start, the exceptions and the end of the run; Establishments/Stored says
--   what an ingested row leaves.
-- - Postings: the job postings. Postings/Parse and Postings/Persist are persist_job_postings of
--   apps/crawler/services.py; Postings/Matching, Postings/Collect and Postings/Fixture are
--   services.py, base.py and fixture.py of apps/sources/jobs, Postings/Reviews is
--   apps/crawler/reviews.py. Postings/Collect/Company is about a whole collection, with what it
--   stores in Stored.
-- - Companies: correct_company of apps/companies/corrections.py in Companies/Corrections, with the
--   current observations in Current, the written rows in History, the changed row in Row and what its
--   success implies in Audit.
-- - Discovery: apps/discovery. Discovery/Coverage is coverage.py, Discovery/Planning is planning.py.
--   The plans use the capacity and the URL check of Cnpj.
-- - Base: the names that all share, lists over the native numbers, the integers, and in Base/Results
--   the results of code that may raise.
--
-- Numbers: a primary key, a size and an instant (seconds) are natural numbers; Python's integers
-- that can be negative are ℤ; a Decimal is an integer with a number of places, and a score is a
-- number of thousandths, rounded half to even as quantize does. Fuel: condition_matches and
-- validate_condition count down from 6, which is the code's own limit of depth 0 to 5; the worker's
-- loop runs over a list of rounds; the redirects count down from max_redirects + 1, the code's range.
--
-- Parameters, since they are not code of this repository: text functions, regular expressions and
-- parsing of numbers and dates of Python and Django, urllib's URL functions, the name server and the
-- remote servers, the rows of a ZIP file, the hash of a query's scope or of a payload, the free bytes
-- of the disk, and the clock. Parameters too, as code of the repository that is not modelled: what a
-- job's handler does to other tables, the text of a page (crawler/extraction.py), and the pages that
-- an adapter of a job source other than the fixture yields.
--
-- Not modelled: views, forms, admin, templates, migrations and settings; the threads of the
-- heartbeat, which are the interleaved renewals of Jobs/Traces; the extraction of text and
-- structured data from HTML; crawl_company_website, which calls persist_page and
-- discover_priority_urls; the detector of signals; validate_rule_set, and the comparison and the
-- simulation of rule sets; the summaries of apps/jobs/operations.py; and the steps of
-- execute_find_jobs around the collection.
pub mod Base
pub mod Cnpj
pub mod Companies
pub mod Crawler
pub mod Discovery
pub mod Jobs
pub mod Postings
pub mod Scoring
