-- ===== src/Lib.antt =====
-- swkoo.kr: the core of the deployment platform's backend (apps/backend/src), a NestJS service that
-- keeps its state in SQLite tables and in maps of the process, and acts on GitHub, Kubernetes and
-- DNS.
--
-- Parts, and where they are modelled:
--   Domain            apps/backend/src/domain: custom domains of deployed apps. `DomainService`
--                     (domain.service.ts: get, register, verify, delete) validates a name
--                     (validation.ts), keeps one row per app (domain.repository.ts), asks DNS with
--                     retries (dns-resolver.ts), commits an Ingress and the edited kustomization.yaml
--                     to the app's deploy repository, and reads the certificate's state through a
--                     cache (cert-status-cache.ts).
--     Domain.Validation      validateCustomDomain
--     Domain.Repository      CustomDomainsRepository on the table custom_domains
--     Domain.Dns             DnsResolver, withRetry
--     Domain.CertCache       CertStatusCache
--     Domain.Kustomization   the edits of kustomization.yaml, and renderCustomDomainIngress of
--                            deploy/templates.ts
--     Domain.Service         DomainService: State (what it reads and writes), Checks (checkDns and
--                            the commits), Info (toInfo), Register, Verify, Delete (the requests);
--                            Sound, Reach, Outcome, Proof, Removal and Cooldown have the proofs
--   Accounts          apps/backend/src/onboarding: users.repository.ts (who has signed in, with their
--                     tokens, sessions, subdomain, notifications, audit entries and reservations, and
--                     the deletion of accounts) and token-cipher.ts.
--     Accounts.Db            the tables
--     Accounts.Users         upsertUser, findBy..., acceptPolicy, setAllowed, setSubdomain,
--                            seedAllowlist, audit
--     Accounts.Sessions, Notifications, Reservations, Tokens
--                            the methods on these tables, saveTokens and getTokens
--     Accounts.Erasure       softDeleteUser, hardDeleteOldUsers
--     Accounts.Cipher        TokenCipher over AES-256-GCM as a parameter
--     Accounts.Unique, Steps, Checked, Reach, Accepted, Forgets, Retention, Access, Secrets,
--     Accounts.Saved
--                            the proofs
--   Access            who may see and do what.
--     Access.Scope           apps/backend/src/onboarding/viewer-scope.ts
--     Access.Admin           apps/backend/src/onboarding/admin.guard.ts
--     Access.Subdomain       apps/backend/src/deploy/subdomain.ts
--   Events            apps/backend/src/events/events.repository.ts: the events of deployments and
--                     their summary (Events.Cadence has the proof).
--   Auth              apps/backend/src/onboarding/auth.service.ts and jwt-auth.guard.ts.
--     Auth.SignIn            exchangeCodeForUser, onApplicationBootstrap
--     Auth.Tokens            getValidAccessToken, refreshAccessToken, computeExpiry (Fresh: the proof)
--     Auth.Session           signSessionToken, verifySessionToken, revokeSession and the guard
--                            (Guarded: the proof); jsonwebtoken is a parameter
--   Patch             apps/backend/src/deploy/security-patch.policy.ts.
--     Patch.Lockfile         package.json and lockfiles as they are read
--     Patch.Input            validatePatchInput, overrideRanges
--     Patch.Changes          validatePatchResult (Upgrades: the proof)
--   Github            apps/backend/src/github-app/github-app.service.ts: the client of the GitHub
--                     App, over the answers of the Git Data API.
--     Github.Commit          commitFilesAtomic (Made, Something: the proofs)
--     Github.Repositories    tokens and repositories; the rounds of listArchivedRepos are fuel, one
--                            for each hundred repositories and one more (Paging has the proof)
--   Deploy            apps/backend/src/deploy: what a deployment is and how it comes about.
--     Deploy.Names           sanitizeName and the paths of templates.ts
--     Deploy.Image           deployment-readiness.ts and running-image.ts (Agreed: the proofs)
--     Deploy.Storage         the storage profile: its detection in a schema and what is kept of it
--     Deploy.Preview         detectStack of deploy.service.ts (Deployable: the proof)
--     Deploy.Stages          deploy-status.service.ts: Build (checkBuildStage and the messages on
--                            failures), Runtime (checkRuntime), Pipeline (getStages)
--     Deploy.Source          source-setup.ts: inspect; Create: createMissing (Planned, Missing: proofs)
--     Deploy.Current         getCurrentDeployment and what it parses
--     Deploy.Handler         handlers over the tables and the repositories, with their errors
--     Deploy.Register        registerForUser: authorise (the checks), Claim (the subdomain),
--                            Publish (the commits); Checks, Silent and Steps have the proofs
--     Deploy.Unregister      deleteDeployment (Freed: the proof)
--     Deploy.Recovery        deployment-recovery.service.ts (Safe: the proof)
--     Deploy.Cleanup         cleanup.service.ts, over Accounts.Erasure and Github.Repositories
--     Deploy.Notify          deploy-notifications.service.ts (Window, Mails, Spacing: the proofs)
--   Prelude           results, lists, tables of rows, association lists, and texts as lists of
--                     UTF-16 units with the string methods that the source uses.
--
-- A request is a function from the state to the state and its result; an exception is a value. What
-- is outside the repository's code is an argument: the public suffix list (tldts), the resolver's
-- answer on each attempt, GitHub's answers, the cluster's answers, the clock and the random
-- identifier. A step that GitHub answers with an error may still have written something: what it left
-- is a field of the world (`left` of Deploy.Register's World). A timestamp is its milliseconds. Everything within one request is one step, but for
-- `verify`, which Reach also lets end between its two writes; requests may come in any order.
-- Loops are structural: the retry loop of withRetry has three rounds as in the source, and no other
-- definition has fuel but Prelude.Integers.digits (nineteen digits, as an integer of SQLite has at
-- most) and Github.Repositories.archived_from (one round for each page, which is proved enough).
--
-- Not modelled: HTTP binding, configuration, logging, the texts that are only shown, the clients of
-- Argo CD, Kubernetes and e-mail (parameters), and the frontend; of the accounts, scan results, the
-- listings that only select and sort, the backup and the migration of plain tokens; of deployments,
-- the templates of the manifests, the parser of the stored storage profile, the arithmetic of the
-- admission, the draft pull requests of the source setup, and the JSON of audit entries, which are
-- fields of the world of a request.
-- Nor are the scan of images and the plans of security patches, the pipelines and the
-- provenance of images, and the environment variables of an application.
-- Two requests that overlap where one awaits an answer are taken one after the other. Two statements
-- on one table are never interleaved, since better-sqlite3 is synchronous and each method makes one.
-- Lower case is that of the ASCII letters and of the units that lower to ASCII
-- (Prelude.Texts.lower_unit); other units stay as they are, and such a name is rejected either way.
pub mod Access
pub mod Accounts
pub mod Auth
pub mod Deploy
pub mod Domain
pub mod Events
pub mod Github
pub mod Patch
pub mod Prelude
