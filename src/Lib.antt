-- ===== src/Lib.antt =====
-- The tower desk backend: the service of maintenance requests, which takes a resident's request
-- through triage, estimates, the owner's approval, assignment and work, with the policy that routes
-- it and the access rules that say who may do what; the parking service with its import of CSV files;
-- and the delivery tasks with the worker of the password e-mails.
--
-- The program. NestJS controllers call services; a service checks the caller, opens a Prisma
-- transaction, reads rows, tests them, writes them, and emits events after the commit. The parts
-- modelled here are `MaintenanceRequestsService` (src/modules/maintenance-requests), the decisions
-- of `OwnerPortfolioScopeService` (src/modules/owner-portfolio), what they read of
-- `AccessControlService`, `BuildingAccessService` and `ProviderAccessService`, `ParkingService`
-- (src/modules/parking), `parseCsv` (src/common/utils/csv.ts), `DeliveryTasksRepo`
-- (src/infra/queue/delivery-tasks.repo.ts) and `processTask` of `AuthPasswordDeliveryService`
-- (src/modules/auth). The parking service reads the leases and occupancies that other modules
-- write, and gives the imported file to `parseCsv`; the worker of password e-mails takes the rows
-- that the repository of the delivery tasks keeps.
--
-- The files.
--   Prelude, with Tests, Lists, Members, Distinct and Strings: Booleans, options, lists, lists of
--     distinct ids and JavaScript text.
--   Result and Action: exceptions as values, and handlers as functions of the tables.
--   Directory: the tables that the request service only reads (prisma/schema.prisma).
--   Access: effective permissions (src/modules/access-control), the building and provider contexts
--     (src/common/building-access, src/modules/service-providers) and the units of an owner.
--   Request/Types: the enumerations of maintenance-requests.constants.ts and the request's row.
--   Request/Policy: maintenance-request-policy.ts, function by function.
--   Request/Steps: the body of each transaction, as a function from the row to the outcome: the
--     row written, the audit rows and the events. Guards has `assertExecutionUnlocked` and the
--     other private checks.
--   Request/World, Callers and Service: the tables, the checks of the caller and the handlers, named
--     like the methods; a handler finds a row, takes the step on it and commits the outcome.
--   Request/Moves: every step as one relation on rows, with what each keeps.
--   Request/Effects and Operations: every handler as one operation, and the row that it touches.
--   Request/Runs: operations one after another, with changes of the other tables in between.
--   Request/Rules: when each step is allowed and what it leaves.
--   Request/Examples and Tests: a small organisation, and the theorems on it.
--   Csv: `parseCsv`, function by function; Csv/Printer is a printer of tables, and Csv/Cells, Lines
--     and RoundTrip lead to what is parsed of a printed table. Csv/Tests has a table.
--   Parking/Types and World: the rows and the tables. Slots, Allocating, Ending, Vehicles and Lists have
--     the handlers, named like the methods, with the queries of parking.repo.ts.
--   Parking/Import, with Headers, Reading and Writing: `importSlotsCsv`, from the headers to the
--     writes of its transaction; Counts, Apart, Updating,
--     Placed and Report say what is read and what is written.
--   Parking/Operations: the calls that write as one type, and runs of them. Board is the abstract
--     view, which allocation has each slot; Sound what always holds of the tables, with what each
--     handler keeps in its children; Refinement puts them together; Answers says when `allocate`
--     returns. Parking/Tests has a small garage.
--   Delivery/Tasks: the table and the operations of delivery-tasks.repo.ts, where the database has
--     the table. Delivery/Passwords: `processTask` of auth-password-delivery.service.ts, given what
--     came of the sending. Rows, Attempts and Claims say what calls leave of the row of
--     a task. Delivery/Cleanup: `cleanup` of platform-delivery-tasks.service.ts (src/modules/platform)
--     and `pruneExpiredTasks` of delivery-task-retention.service.ts.
--
-- Conventions. Ids are natural numbers, times are milliseconds, and the clock is read once in a
-- handler. Stored amounts are hundredths, as the column is Decimal(12, 2); the amount of a payload is
-- its hundredths with what it has below them, since the policy reads it before it is rounded, and it
-- is stored as PostgreSQL rounds it, half up. Text is a list of UTF-16 code units; lower-casing is
-- modelled as far as its result can hold an ASCII letter, upper-casing of a currency for ASCII letters
-- only. Payloads are the values that the validation pipe lets through; of the values `null` that it
-- lets through, those that clear a nullable flag of the triage are modelled, and those with which the
-- database or the code refuses the call (emergency, amount, currency) are not.
-- A handler that throws leaves the tables as they were, since it writes inside one transaction
-- only, or in its last statement; `processTask`, which writes and then throws, returns what it
-- throws as a value. Handlers run one after another: two transactions that interleave are not
-- modelled, nor two calls of `allocate` that choose one slot at the same time. The order of texts in
-- the database is a field of the tables of parking. There is no fuel: every loop is a recursion on a
-- list.
--
-- Not modelled: comments, read marks, attachments added later, and the lists of requests; the
-- enrichment of responses, which only reads; the monitor of estimate reminders; the delivery of the
-- events; the fallback store, the lists and the summary of the
-- delivery tasks, the queue, and the workers of push notifications and broadcasts; and the other
-- modules of the backend (leases, messaging, visitors, residents, authentication), of which the
-- modelled services read rows at most.
pub mod Prelude
pub mod Result
pub mod Action
pub mod Directory
pub mod Access
pub mod Request
pub mod Csv
pub mod Parking
pub mod Delivery
