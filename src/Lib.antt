-- ===== src/Lib.antt =====
-- A model of the message pipeline of py-aleph, the node of the aleph.im network. A node receives
-- messages from its peers and from blockchains. Each is a row of pending messages first; a loop takes
-- the rows that are due, verifies, fetches and checks a message, stores it and lets the handler of its
-- type process it. A message that fails is rejected or tried again later. FORGET messages remove
-- earlier messages, POST messages and their amends make posts, PROGRAM and INSTANCE messages make
-- machines, STORE messages pin files, and a garbage collector deletes files that nothing pins.
--
-- The files, and the code that they model, with paths from the root of the repository:
--   Prelude       tests and lists that the other files share; no code
--   Status        src/aleph/types/message_status.py and message_processing_result.py: states, error
--                 codes, and the exceptions as values
--   Result        what a step that may raise returns, and loops over such steps
--   Node          src/aleph/db/models/messages.py and pending_messages.py: the rows and the tables;
--                 Node/Accessors has the statements of src/aleph/db/accessors/messages.py and
--                 pending_messages.py, Node/Consistent the invariant of the tables, and
--                 Node/Next the order in which pending messages are taken
--   Permissions   src/aleph/permissions.py: who may act for an address
--   Files         src/aleph/db/models/files.py and src/aleph/db/accessors/files.py; Files/Store has
--                 src/aleph/handlers/content/store.py, and Files/Collect
--                 src/aleph/services/storage/garbage_collector.py
--   Handler       src/aleph/handlers/message_handler.py, over a record of the operations of
--                 src/aleph/handlers/content/content_handler.py
--   Publisher     MessagePublisher of src/aleph/handlers/message_handler.py, and
--                 src/aleph/schemas/base_messages.py and pending_messages.py: how a raw message
--                 becomes a pending one
--   Jobs          src/aleph/jobs/job_utils.py and process_pending_messages.py: the retries, and the
--                 loop over the pending messages; Jobs/Fetch has
--                 src/aleph/jobs/fetch_pending_messages.py, and Jobs/Attempts the turns of both jobs
--   Forget        src/aleph/handlers/content/forget.py; Forget/Permitted has who may
--                 forget what, Forget/Linked which hashes the tables of the other handlers name, and
--                 Forget/Named those of the handler of posts
--   Aggregates    src/aleph/handlers/content/aggregate.py and src/aleph/db/accessors/aggregates.py, on the
--                 rows of one owner and key
--   Balances      src/aleph/db/models/balances.py and src/aleph/db/accessors/balances.py
--   Posts         src/aleph/handlers/content/post.py, src/aleph/db/accessors/posts.py and models/posts.py:
--                 posts, their amends, and what the merged post shows
--   Machines      the contents of PROGRAM and INSTANCE messages
--   Costs         src/aleph/services/cost.py and src/aleph/types/cost.py: what a machine costs
--   Vms           src/aleph/db/models/vms.py and src/aleph/db/accessors/vms.py; Vms/Content and Vms/Handler
--                 have src/aleph/handlers/content/vm.py, Vms/Volumes and Vms/Versions its properties
--   Range         src/aleph/toolkit/range.py: ranges and multiranges, by which a node keeps track of
--                 what it has indexed of a chain; they stand apart from the pipeline
--   Chains        src/aleph/db/models/chains.py, db/accessors/chains.py and pending_txs.py: transactions
--                 and the ranges that a node has read; Chains/Reader has
--                 src/aleph/chains/indexer_reader.py, which reads the missing ranges from an indexer page
--                 by page, and adds the range of each page to those that are read; Chains/Verify has the
--                 buffer that is signed and the verifier of src/aleph/chains/tezos.py, Chains/Tezos its
--                 reader
--   Txs           src/aleph/chains/chain_data_service.py and src/aleph/jobs/process_pending_txs.py: how
--                 the messages of a transaction become pending messages; Txs/Rounds has the rounds
--   Storage       src/aleph/storage.py: where contents are read from, and what is stored
--   Queries       the listings of src/aleph/db/accessors/messages.py and posts.py, and the views of
--                 src/aleph/web/controllers/messages.py and posts.py: Queries/Messages, Queries/Posts,
--                 Queries/Status for one message and the hashes, Queries/Socket for the websocket;
--                 Queries/Sort and Queries/Pages have what is true of any listing, and
--                 Queries/Messages/Fits what it is for a message to fit the filters
--   Web           src/aleph/web/controllers/utils.py and p2p.py: the pagination, and the publication of
--                 a message with its status codes; Web/Upload has storage.py there: what the node accepts
--                 as an upload, and what it serves
--   Examples      runs at concrete inputs
--
-- The state is the database: a record of tables. A table with a primary key is a function from keys to
-- optional rows, or, where queries go over its rows (posts, machines, pending messages), a list, into which
-- an insertion tests the key. Each accessor is a function from tables to tables, or to a result where a
-- constraint of the database can refuse the statement. A handler takes a session to a result, so an
-- exception has no state, which is what the rollback of the caller leaves. Hashes, addresses, chains,
-- channels, keys and texts are only compared and are naturals; so are times. The clock is an argument.
--
-- What is not under src is a parameter: the signature verifier, the storage service with the validation
-- of contents (HandlerEnv), the tests on item hashes (StoreEnv), the refresh of an object by the session
-- after an UPDATE (RetryEnv), the indexer and JSON (ReaderEnv), the settings, JSON and `str` of a post
-- (PostEnv), Decimal and the pricing aggregate of the costs (CostEnv), JSON, SHA-256 and the schemas of
-- contents of the publisher (PublisherEnv). Since a hash is opaque, item_type_from_hash of
-- src/aleph/utils.py is a parameter too. The other content handlers with their tables are parameters of
-- the pipeline (HandlerEnv, ForgetEnv). KeepsTables says what the loop assumes of them, on any session, and
-- NamesKnown what the handler of FORGET messages does, on sessions where the hashes that their tables name
-- are known (IsLinked); the handler of posts meets both. The SQL view of the costs of an address is one of
-- check_balance. The values of aggregates and the amounts of balances are opaque.
--
-- Every function is total by structural recursion. The loop over the pending messages takes the list of
-- the times of its rounds, and ends before it where nothing is due. The loop over the pages of an
-- indexer takes fuel: one round more than the length of the range, if each full page ends later than it
-- starts.
--
-- A query for a listing is a function on the list of the rows of its table: the filters keep rows, the
-- outer join with the confirmations repeats them, the order is a stable sort, and the offset and the
-- limit take a part. The list has the rows as one execution of the query reads them, so that pages of
-- rows which the order does not tell apart need not fit together. The list has the rows as one execution of the query reads them, so that pages of
-- rows which the order does not tell apart need not fit together. A row of the JSON columns
-- (JsonColumns), an attribute of a content (Attributes), the peers and the IPFS daemon (StorageEnv), the
-- schemas of an upload (UploadEnv), the cryptography (TezosEnv) and JSON and the payloads of chain events (TxEnv) are parameters. The jobs for transactions
-- and fetches run their tasks one after another; which fetches finish in a round is an argument, so that
-- the bookkeeping is shown for every order.
--
-- Not modelled: the connectors of the other chains, which are components of their own; the network, the
-- storage engine and migrations, which are input and output; the remaining controllers of the HTTP
-- interface and the listings behind them.

pub mod Prelude
pub mod Range
pub mod Machines
pub mod Status
pub mod Result
pub mod Node
pub mod Permissions
pub mod Files
pub mod Handler
pub mod Jobs
pub mod Forget
pub mod Aggregates
pub mod Chains
pub mod Balances
pub mod Costs
pub mod Posts
pub mod Vms
pub mod Publisher
pub mod Queries
pub mod Web
pub mod Txs
pub mod Storage
pub mod Examples
