-- ===== src/Lib.antt =====
-- pdip is a Python framework whose integrator moves rows from a source to a target. This library
-- models the core of the integrator and the services that it stands on.
--
-- Parallel (pdip/integrator/integration/types/sourcetotarget/strategies): the parallel strategies.
--   `Reader` is `SourceReadOperation.start`, `Writer` is `TargetWriteOperation.start`, each cut
--   into steps at its queue operations; a step of the model is what a thread does from one queue
--   operation to the next, and `Schedule` runs any sequence of such steps, so that every
--   interleaving is a list of thread names. A step that waits at an empty queue is `none`. No fuel
--   is needed, since a schedule is finite. `Processes` is the same algorithm in parallelold.
--   `Ended` follows the results of the writers, `Total` hands them to the thread pool, and `Execute`
--   is what both strategies publish around all this, among what the started threads and processes
--   publish on the same channel. What a writer returns is put on the result queue by the last step
--   of the writer, while `ParallelWorker.run` puts it right after that step.
-- Threading (strategies/parallelthread/threading): `Worker` is `ParallelWorker.run`, `Broker` is
--   `ParallelSessionBroker` as a function of the messages on its result queue, and `Totals` the sum
--   that parallelthread takes of the results. `Refinement` relates it to `ProcessManager`.
-- Processing (pdip/processing): `ProcessManager` as a function of the messages on its result queue,
--   `Subprocess.start`, and the sum that parallelold takes of the results.
-- Pubsub (pdip/integrator/pubsub): `MessageBroker.subscribe` and `unsubscribe`, and the loops of
--   `MessageBrokerWorker` and `EventListener` as functions of the messages that they are given.
--   `Channel` is the channel as an interleaving of what several threads put on it, and `Failing` the
--   listener with a callback that raises.
-- Integration (pdip/integrator/operation, pdip/integrator/integration, pdip/data/decorators):
--   `Single` is the single-process strategy; `Messages` and `Adapters` are the three integration
--   adapters and the factories; `Execution` is `IntegrationExecution.start` and
--   `OperationExecution.start`, the latter under `transactionhandler` (`Transaction`), of which
--   commit, rollback and close may raise. What is published stands on the channel of the state;
--   what threads publish that a strategy has left running is a list of late log messages, which
--   `Lifecycle` interleaves with it in any way, and `Pubsub.Delivery` tells what subscribers see of
--   it. `Outcome` and `Order` are about the integrations that are executed and the message of the
--   end of each. `Integrator` is `pdip/integrator/base/integrator.py` around them, and `Events` the
--   default listeners that its initializer subscribes (pdip/integrator/initializer,
--   pdip/integrator/event).
-- Sql (pdip/integrator/connection/types/sql): `Iterator` is `SqlIterator`, `Retry` the decorator
--   `connect` and the retries of `SqlContext`, `Context` and `Insert` its queries, `Postgresql` the
--   dialect as an instance of `Dialect`, and `Adapters` the source and the target adapter. The
--   retries and the loop over an iterator run on fuel: the number of retries and one more, and more
--   than the number of rows, are enough. `Dialects` has the other four dialects, and `Async` the
--   asynchronous dialects and adapters (sql/base/async_sql_dialect.py, sql/adapters).
-- BigData (pdip/integrator/connection/types/bigdata): its iterator and the dialect of Impala.
-- Files (pdip/integrator/connection/types/file): `CsvConnector`, over the chunks that pandas reads.
-- Configuration (pdip/configuration): `ConfigManager` after its file has been read.
-- Cqrs (pdip/cqrs): the `Dispatcher`.
-- Generator (pdip/cqrs/generator): `QueryGenerator`, as the calls that it makes, with the text of
--   every file that it writes.
-- Json (pdip/json): the classes that `BaseConverter` registers and looks up. The depth of its nested
--   calls is the fuel; the depth of the annotations is enough.
-- Html (pdip/html): the tables of `HtmlTemplateService` as texts.
-- Api (pdip/api/handlers, pdip/api/specifications): `RequestHandler`, with the two headers that it
--   sets, `Errors` the error handlers, and `Order` the order of a query.
-- Utils (pdip/utils, pdip/io): `ModuleFinder` over the modules that it has found, and the managers
--   of files and folders. The depth of the recursion for an old folder is its fuel.
-- Paging (pdip/api/specifications, pdip/html): `PagingSpecification` and the pagination of tables.
-- Data (pdip/data/repository, pdip/utils/utils.py): `Repository` and `RepositoryProvider` over a
--   session, and the address of the database.
-- Tests holds small runs, and the theorems at concrete inputs.
--
-- The adapters of databases and services, pandas, func_timeout, the operating system's processes
-- and the text of a traceback are arguments: `Parallel.Domain.Site`,
-- `Integration.Adapters.Installation` and the section parameters. What the theorems assume of them
-- is named: `IsFaithful` says that the source counts and pages one fixed list of rows and that a
-- write that succeeds appends, `AliveUntilRead` that a process lives until its message is read. An
-- exception is a value of `Result`; the tracing spans and the times that are logged are left out.
-- Counts are natural numbers; Python's ints have no bound, so that nothing wraps around.
--
-- Not modelled: the Excel, queue, web and in-memory connectors, the big-data context and the drivers
-- of databases; the inspection of schemas; the other initializers; dependency
-- injection, the rest of the API, the reading of configuration files, the JSON encoders, logging
-- and the observability helpers.
pub mod Prelude
pub mod Parallel
pub mod Threading
pub mod Processing
pub mod Pubsub
pub mod Sql
pub mod BigData
pub mod Files
pub mod Configuration
pub mod Cqrs
pub mod Api
pub mod Json
pub mod Utils
pub mod Data
pub mod Html
pub mod Generator
pub mod Integration
pub mod Paging
pub mod Tests
