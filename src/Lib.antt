-- ===== src/Lib.antt =====
-- The console of operations-api: the logic of the single-page frontend under frontend/js.
--
-- The program. A browser page shows what an HTTP API reports of servers, patching, certificates, end
-- of life, disks, licences and audits. api.js wraps fetch and keeps the recorded errors and the flags
-- of widgets on demo data. op-boot.js fetches, maps the answers to the globals that the pages read,
-- and offers the write actions. op-app.js derives the state of the shell from those globals, and
-- op-pages.js has the router and the pages, with their filters, tables and forms. op-datekit.js has
-- the dates. A page is drawn again from the globals after each event; the model has the handlers as
-- functions on the state that they read and write, and the drawing only as far as it computes
-- something that a handler uses later.
--
-- The files.
--  - Common: tests, lists, texts as lists of UTF-16 code units, decimal numbers, and whole numbers with
--    a sign.
--  - Dates: the language's Date at local midnight, counted in days from 1 January of the year 0.
--  - DateKit: frontend/js/op-datekit.js (addDays, isoLocal, parseLoose, toIsoDate, fmtGB,
--    deriveState, slugifyReason).
--  - Api: frontend/js/api.js. An answer of fetch is a Reply, and api and api_write are what the code
--    does with it to the Store.
--  - Console: deriveDiskAlerts and consoleState of frontend/js/op-app.js; Console/Rail: railFlagFor.
--  - Router: currentRoute, currentRouteParam and goto of frontend/js/op-pages.js.
--  - Tables: paginate, paginationBar and the sorting comparator of frontend/js/op-pages.js.
--  - Mappers: mapServers to mapExclusionSummary of frontend/js/op-boot.js, which turn answers into what the
--    pages read.
--  - Filters: applyServerFilters, applyCertFilters, applyEolFilters and applyDiskFilters of
--    frontend/js/op-pages.js.
--  - Export: exportCsv of frontend/js/op-pages.js, with a reader of CSV fields to compare it with,
--    for which a line feed alone also ends a record.
--  - Exclusions: addExclusion and bulkExclude of frontend/js/op-boot.js, and in Exclusions/Actions
--    renewExclusion and releaseExclusion; Exclusions/Calendar: renderCalendarPicker and
--    renderMonthGrid; Exclusions/Wizard: the form of renderAddExclusion and what its handlers do to it,
--    and Exclusions/Wizard/Pages the wizard as a page, which is the live form with the controls as drawn
--    and what they captured; a drawing that throws leaves the old controls in place, and the relation
--    Move is what the user can do with them; Exclusions/Bulk: renderBulkExclude, whose page is
--    the live form with the form as drawn; Exclusions/Rows: mapExclusions, filteredExclusions,
--    the counts and the renewals.
--  - Auditing: the audit data of frontend/js/op-boot.js. Auditing/Answers and Auditing/Data are the
--    answers and window.AUDITING_DATA; Auditing/Roster is _applyAdReferenceData, Auditing/Roster/View what
--    the look-ups see of it; Auditing/Apply is applyAuditing and applyAuditingApp, and a Load one call of
--    either; Auditing/Fetch and Auditing/Actions are fetchAuditing, its two refetches and the audit
--    actions of OC_ACTIONS. Auditing/Routing, Auditing/Status and Auditing/Health are the helper functions
--    of frontend/js/auditing-demo-data.js from getUser to getAuditingCritCounts, Auditing/Health/Pill what
--    railFlagFor reads of the same data.
--  - Licensing: applyLicensing, the licensing actions of OC_ACTIONS and their fallback in memory of
--    frontend/js/op-boot.js; frontend/js/licensing-demo-data.js with its data in Licensing/Seed;
--    _filteredLicences of frontend/js/op-pages.js.
--  - Boot: fetchAllServers of frontend/js/op-boot.js, and its runFetches in Boot/Wave: a World is what the
--    pages read of the globals, a Landing an answer as its handler gets it, `land` the handlers, and a wave
--    a list of answers in the order in which they land. Boot/Refresh is fetchDisks, fetchExclusions,
--    fetchCerts, fetchServers and refetchExclusions: what they ask for and what they take over.
--  - Samples: concrete data and stand-ins, for the Tests module of each part.
--
-- Bounds and fuel. Days, pages and counts are natural numbers without a bound; dates before the year 0
-- and numbers beyond 2^53 are outside the model. The digits of n are found with fuel n + 1, which is
-- more than n has digits; the year of a day by a search from day / 365 down, which is enough as no year
-- is shorter than 365 days. The pages of
-- fetchAllServers are fetched in at most ten rounds, the source's own bound. Nothing else uses fuel.
--
-- What is a parameter. Router.Browser: lower-casing and the encoding of a fragment, of which only
-- what they do to plain ASCII is relied on. DateKit.Engine: Date parsing of texts in no form that the
-- code handles, the number of a text that is no run of digits, and the names of the months.
-- Console.Floats and Tables.Cells.Numbers: the numbers that are not whole. Mappers.Patching.Locale: the
-- times of dates and the order of names. Licensing.Buckets.Clock: local midnights and now, in
-- milliseconds. Boot.World.Forms gathers what a wave takes of these.
-- Auditing.Status.Almanac: the order of localeCompare, dates moved by months, the end of a day, and now.
-- The shown forms of dates are functions given to the mappers.
--
-- What is not modelled. The DOM and its styles; the seed of the audit data; the C# service, the SQL, the
-- Python and PowerShell jobs and the pipelines; the boot sequence around its first wave;
-- the detail page of a server and the search; the look-up of owners' names and the audit pages.
pub mod Common
pub mod Api
pub mod Auditing
pub mod Boot
pub mod Dates
pub mod DateKit
pub mod Router
pub mod Tables
pub mod Console
pub mod Mappers
pub mod Licensing
pub mod Filters
pub mod Export
pub mod Exclusions
pub mod Samples
