-- ===== src/Lib.antt =====
-- dns_entree: a model of the Go library dns-entree, which pushes, merges, detects, migrates and
-- verifies DNS records, and applies Domain Connect templates to zones.
--
-- The parts and their files. A definition has the name of the Go function, in snake case.
--   Base        numbers, tests and lists that all parts share.
--   Text        package strings on lists of bytes (Core, Case, Search, Trim, Fields, Split).
--   Record      entree.go and provider.go: a record, and the calls of a provider as operations on
--               a state of any type. Record/Errors: results and the errors of a push.
--   Spf         spf.go. Merge is the text part of MergeSPF, Count the surface count, Recursive the
--               walk over includes; Spf itself is MergeSPF. The others hold proofs.
--   Push        push.go on top of Spf and Record: Steps has the shared steps (findRecord, runVerify,
--               write and verify), Push the four operations. Apply is apply.go, Fake is
--               internal/fakeprovider. Laws is what a push relies on of a provider, which Fake fills.
--   Template    template/. Types, Substitute (variables and flexInt), Names (hosts), Keys (keys,
--               removal, deduplication, normalising), Spfm, Entries (a template record to its
--               entries), Conflicts, Step (the rule of each type on the zone), Signature
--               (sigverify.go) and Process (ProcessRecords, which composes them in this order).
--               Resolve is resolve.go, and Apply is apply.go, which pushes the resolved records by
--               Push: these two are the other way to use a template, without a zone.
--   Dns         answers of name servers, as verify.go and migrate/convert.go read them.
--   Verify      verify.go. Search is about the loop over the values of an answer.
--   Detect      detect.go; Detect/Rdap is the registrar lookup.
--   Validate    validate.go.
--   Migrate     migrate/. Store is store.go and store_json.go, the JSON store with one file a row, and
--               Store/Served the same calls on a map. Convert is convert.go. Scrape is scrape.go,
--               labels.go (Labels), zone.go and bind.go: Walk is the walk over names, Source ScrapeZone.
--               Target is verify_target.go. Run is migrate.go, report.go and adapter.go: Main is
--               Migrate, on top of Scrape (the zone), Target (the check of a record) and Record (the
--               provider). Crypt is crypt.go.
--   Providers   providers/cloudflare, route53, godaddy and namecheap: each is the provider of Record over
--               the client of its service. Godaddy/Http is the retrying `do`, Replace the merging that
--               godaddy and namecheap share, Priority and Unread what a push on top of them does.
--   Api         api/handlers_migrate_stateful.go: Rows is a stored migration and its loading with the
--               bearer token, Stateful the handlers over the store. Apply is in
--               three parts (claim, work, finish), since other requests can come between its updates.
--               Preview composes Validate, Migrate.Scrape, Detect and Crypt with the store. Lifecycle
--               is all requests as steps, in any order.
--
-- Choices. Text is a list of bytes; letter case and white space are those of ASCII. A Go int is an
-- integer that no operation of the modelled code brings near 64 bits, except in Sscanf and Atoi, whose
-- range check is written out. A map is an association list. An error keeps its kind and not its
-- message. Where a function changes state, it takes the state and returns the new one. The
-- recursive SPF walk takes the levels that are left: depth runs from 0 to 10 in the code, so eleven
-- levels are all it reads (max_levels), and the twelfth counts nothing in the code too. Decimal
-- digits of n are written with n + 1 steps of fuel, one more than there can be digits. The walk over
-- names takes fuel, a step for each name of its queue: a name that is queued lies a level deeper, and
-- nothing is queued from the fourth level on, so some fuel is enough (Migrate.Scrape.Ends). The rounds
-- of verification count the waits before the deadline, and a GoDaddy request the retries that are
-- left. Every other loop is structural recursion.
--
-- Parameters: the SPF resolver, the DNS verification after a push, the provider, url.Parse, the
-- cryptographic packages, the key lookup, the NS lookup, the RDAP request with its JSON, net.ParseIP,
-- the random id, and for the handlers JSON, the random bytes, the credentials' decryption, the adapters, the target provider,
-- the rate limiter and VerifyAgainstNS; for Verify and the migrations the network with its replies, the
-- parser of zone files, the clock, AES-GCM and SHA-256; for the back ends the client of the service, with
-- its paging, JSON or XML, and its limiter. No law is asked of them, with five exceptions:
-- a push asks of the provider that it reads back what it stored (Push.Laws), which the fake provider
-- does; the theorem on conflicts asks that a deletion removes the records with its id
-- (Template.Apply.Conflicts); one on apply asks that errors of the limiter and of the target have a
-- text (Api.Stateful.Applied); credentials open again where the cipher opens what it sealed; and the one on
-- deletions of Route 53 asks that the service lists what was written, with a dot behind
-- the name (Providers.Route53.Laws).
--
-- Not modelled: logging, contexts and time-outs (but where a done context ends a loop or a call of the
-- store), failures of the file system, JSON, the other HTTP handlers (api), the back end
-- gcdns and the listing of zones by the others (providers), the registry, the SQL store and file
-- locks, the adapters that create zones and the instructions for registrars (migrate), Domain
-- Connect discovery (domainconnect), esp, inspect, the command line (cmd), and the TypeScript widget.
pub mod Base
pub mod Text
pub mod Record
pub mod Dns
pub mod Spf
pub mod Push
pub mod Verify
pub mod Template
pub mod Detect
pub mod Validate
pub mod Migrate
pub mod Providers
pub mod Api
