-- ===== src/Lib.antt =====
-- QMTL: a platform on which strategies declare DAGs of data nodes. This library models the parts
-- of it that decide things, and proves what they promise. All paths are from the repository's root.
--
-- Parts and files:
--
-- - Core: the scheduling core, src/qmtl/dag_manager/core. Core/Graph.antt is GraphBuilder of
--   graph_builder.py: `visit` is the inner function of get_topological_sort_result, its two sets and
--   its list are the record `Marks`, and `ValueError` and `KeyError` are constructors of `SortError`.
--   Core/Ready.antt is ReadyNodeSelector of ready_node_selector.py, which calls the builder and then
--   filters the order by the statuses. Core/Node.antt has the fields of models/datanode.py that
--   these read. Core/Queue.antt is RedisQueueRepository of queue_repository.py over the commands of a
--   Redis server, the record `Redis`, with what its documentation says of them, `IsLawful`; the
--   server in memory of Core/Queue/Memory.antt meets it. Core/Worker.antt is QueueWorker of
--   queue_worker.py, with the functions that it is given.
-- - Gateway: src/qmtl/gateway. Gateway/Policy.antt is services/policy.py, Gateway/Policy/Defaults.antt
--   its default policies, Gateway/Auth.antt, Gateway/Acl.antt and Gateway/Errors.antt are the
--   middlewares auth.py, acl.py and error.py, Gateway/Endpoints.antt the endpoints of gateway.py and
--   Gateway/App.antt its stack of middlewares, with the request id of middlewares/logging.py. A
--   handler is a function from a request to a response or an exception, and a middleware a function
--   from handler to handler.
-- - Registry: src/qmtl/dag_manager/registry/services/node/memory_impl.py. Registry/Nodes.antt has the
--   state of InMemoryNodeService as a record and its methods as functions of it; the lock makes each
--   of them one step. Registry/Links.antt has the steps on the two dicts of lists that relate nodes
--   and strategy versions, Registry/Nodes/Query.antt the listings, and Registry/Nodes/Spec.antt what
--   the service promises without its maps. Registry/Callbacks.antt is NodeCallbackService of
--   callback.py beside it. Registry/Services.antt has the services that the API uses as records of
--   operations over a state, with the strategy service, which the source leaves empty;
--   Registry/Services/Memory.antt makes the node service of them, Registry/Services/Metadata.antt is
--   metadata_service.py and Registry/Services/Validation.antt the check of a protobuf node in
--   node/validation.py. Registry/Api.antt and the files below it are src/qmtl/dag_manager/registry/api.py:
--   Create.antt is create_node, with camel_to_snake in Names.antt and the JSON of a body in Json.antt,
--   Relations.antt and Statuses.antt the links and the statuses, Skeletons.antt the endpoints without a
--   service, Paths.antt a path and its parts, Routes.antt the routes, those of api_callback.py among them, Clients.antt the dependencies
--   that take clients from the pool, and Events.antt the event endpoints over services/event.py.
--   Api/Calls.antt puts the handlers together on the services of the test mode: one constructor of
--   `Call` for each handler, and a sequence of calls is a list. Registry/Client.antt is
--   registry_client.py, and Registry/Client/OverApi.antt sends what it asks through the routes to the
--   handlers.
-- - Db: Db/Pool.antt is Neo4jConnectionPool of src/qmtl/common/db/connection_pool.py, with the semaphore
--   as the number of its permits; `Reach` of Db/Pool/Reach.antt has the steps that its callers take.
-- - Status: Status.antt is StatusService of src/qmtl/dag_manager/execution/status_service.py. A
--   percentage is kept as a numerator and a denominator.
-- - Dag: src/qmtl/dag_manager/strategy/dag_service.py. Dag.antt has DAGService as a record, its
--   additions and its queries; Dag/Verify.antt the cycle test, with the local sets of the recursion as
--   the record `Walk`; Dag/Sort.antt Kahn's algorithm; Dag/Build.antt `build_dag`, and
--   Dag/Sort/Order.antt what Kahn's loop keeps. A `defaultdict` is a dict whose reads go through `at`,
--   and a read that stores a key is written out as `touch`.
-- - Sdk: src/qmtl/sdk. Sdk/History.antt is the record of results of LocalExecutionEngine in
--   execution/local.py: `history` and `_in_memory_cache` are the record `Store`, times are whole
--   seconds. Sdk/Engine.antt is execute_pipeline there: the loop is `run_order`, an exception carries
--   the engine that it leaves, `Clock` gives the readings of the clock, and Sdk/Engine/Reference.antt
--   says without an order what a pipeline computes; Sdk/Saving.antt has the bounds under which it saves
--   the results. Sdk/Node.antt is ProcessingNode of node.py: how
--   the inputs become the arguments of the node's function, which is a parameter, `Function`.
--   Sdk/Pipeline.antt is Pipeline of pipeline.py with its two dicts of nodes and the completion of
--   intervals, Sdk/Pipeline/Query.antt its find_nodes_by_query, Sdk/Pipeline/Selectors.antt its
--   apply_selectors, Sdk/Pipeline/Sort.antt its _topological_sort, whose search is related to `visit`
--   of Core/Graph.antt step by step. Python lists a set in an order of its own: `set_order` stands for
--   it.
--   Sdk/State.antt is the history of StateManager in execution/state_manager.py, over the commands of a
--   Redis server; the server in memory of Sdk/State/Memory.antt meets what is assumed of it.
--   Sdk/Parallel.antt is what _execute_node_async of execution/parallel_engine.py does with each message, and
--   Sdk/Topic.antt the names of topics of topic.py.
-- - Base: conditionals, errors, lists of names, and dicts as association lists in insertion order.
--
-- Bounds and fuel: `visit` recurs on a depth of one more than the number of keys. Every nested call
-- is for a key that was not yet on the path, so the depth is never reached; likewise
-- for the cycle test of the DAG service, with one more than the names in the graph. The rounds of Kahn's
-- loop are bounded by one more than the ids, each of which enters the queue once at most.
-- Python's own recursion limit is not modelled. Sets are lists of which only membership is read.
--
-- From outside the repository, and so parameters: the pattern library (`Matcher`), the token library
-- (`Decoder`), the Redis server (`Redis` of Core/Queue.antt and of Sdk/State.antt) and its `publish`, the
-- texts of values (`Json` of Core/Queue.antt and of Sdk/State.antt), the functions of the nodes
-- (`Function`), the attributes of node objects and `random.sample`, the clock, the request ids, the web
-- framework's rule that the middleware added last is the outermost (`Framework`) and its choice of a route
-- (`IsRouter`), protobuf's `ParseDict` (`parse`), the type of its repeated fields (`is_sequence`), its treatment
-- of a field that is given under two names (`both_names`) and its comparison of timestamps with other times
-- (`older`), httpx (`send`), what the classes that the client imports make of a dict (`validate`), the creation
-- of Neo4j clients, and Kafka's messages.
--
-- Not modelled: log texts; the Neo4j services, the strategy snapshots and the garbage collection, whose
-- behaviour lies in the queries that the server runs; the SDK's analyzer, models and decorators;
-- generated protobuf code; the functions that management.py gives a queue worker; create_node_internal and the
-- handlers of api_callback.py; the start of the parallel engine's tasks and Kafka's clients; the pydantic
-- validation of data classes.
pub mod Base
pub mod Core
pub mod Dag
pub mod Db
pub mod Gateway
pub mod Registry
pub mod Sdk
pub mod Status
