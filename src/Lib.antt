-- ===== src/Lib.antt =====
-- recall.select: the services of a hosted memory for agents.
--
-- A user signs in with Google, buys a tier through Monobank, and gets a memory link: an API key that
-- an agent presents to store, recall, delete and relate memories. The documents of users, payments,
-- usage, collections, projects and keys are in MongoDB; the memories are points in Qdrant, one
-- collection for each user and project.
--
-- The files and the code that they model:
--   Documents         the documents, and the unique indexes of app/services/mongo.py
--   Users             app/services/users.py
--   Billing           app/services/billing.py: Plans (the page's table is in Plans/Page), Tiers,
--                     Grants, Payments, Reconcile; History puts the operations that write payments,
--                     grants and users into one step relation
--   Usage             app/services/usage.py
--   Collections       app/services/collections.py; Provisioning is collection_provisioning.py
--   Projects          app/services/projects.py
--   ApiKeys           app/services/api_keys.py
--   Workspaces        app/services/workspaces.py
--   Account           app/services/account.py
--   Store             app/services/qdrant_store.py
--   Semantics         app/services/vector_semantics.py: annotations and neighbours; Relations are the
--                     declared edges, Lenses derive edges from the points, Graph is the multigraph
--                     and its concepts, with the union-find in Components, Activation spreads from a
--                     seed, Inference is how two memories relate, and Numbers are the floats
--   Memory            app/services/memory.py
--   Api               app/api/deps.py; Routes are the routes of memory.py, collections.py,
--                     projects.py, users.py, api_keys.py and me.py that change state, and Reads are
--                     the others; Checkout is payments.py
--   Mcp               app/mcp_server.py
--   Admin             app/services/admin.py; Gate and Pages are app/api/admin.py, and Memories is the
--                     viewer of a project's memories
--   Application       app/main.py: the background sweep and the account page
--   Locale            app/i18n.py, and the language switcher of app/main.py
--   Monobank          app/services/monobank.py
--   Connect           app/services/docs.py and app/api/connect.py: what an agent is told to configure
--   Mongo, Qdrant     pymongo and qdrant_client, which the code calls: a record of operations and of
--                     the laws that their documentation gives, taken as an instance, and an
--                     implementation in memory that satisfies them
--   Sorting           `sorted`, `sort` and `max` by a key
--   Prelude           Boolean tests, lists and dicts that the others share
--   Tests, and the modules of that name in Admin, Billing, Locale and Semantics
--                     runs on the implementations in memory
--
-- A function of the code is a definition of the same name. One that writes takes the database (or the
-- server) and returns it; an exception is a value of Result or of Reply. A filter of a query is a test
-- of a document, and an update is a function on it. What the code draws or reads from outside is an
-- argument: a fresh identifier, a token, the digest, the embedding model, the answers of Monobank, the
-- parsed body of a request, and the time, which is one instant for each operation, in microseconds
-- since the epoch: the clock, which the code reads several times within an operation, stands still
-- for it. MongoDB keeps milliseconds; the rounding is not modelled. Floating-point numbers are an
-- abstract type with the operations and the tests that the code makes of them, of which nothing is
-- assumed. Where a theorem needs that an order is one, it says so. The methods of texts that Python
-- brings, such as `strip`, `lower` and the reading of a timestamp, are parameters.
--
-- Three loops are on fuel. The paging of Store has one page more than there are points, and each page
-- but the last has a point; `find` of Semantics.Components has one step more than there are edges,
-- and goes up one vertex in each; the minting of ApiKeys has the attempts that the code bounds it by.
-- All other loops are structural.
--
-- Not modelled: failures of a connection, two requests that interleave inside one operation, a
-- temporal lens with a window of 0 seconds, by which the code would divide, templates and prose,
-- schemas, the OAuth exchange, the sending of an HTTP request, and the embedding model.
pub mod Sorting
pub mod Admin
pub mod Application
pub mod Locale
pub mod Monobank
pub mod Connect
pub mod Prelude
pub mod Mongo
pub mod Documents
pub mod Users
pub mod Billing
pub mod Usage
pub mod Collections
pub mod Projects
pub mod ApiKeys
pub mod Workspaces
pub mod Account
pub mod Qdrant
pub mod Store
pub mod Semantics
pub mod Memory
pub mod Api
pub mod Mcp
pub mod Tests
