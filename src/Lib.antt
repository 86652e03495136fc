-- ===== src/Lib.antt =====
-- watched.back: the backend of a monitoring system. It asks agents over HTTP for what they measured,
-- stores it in a MySQL database, opens and closes events where a value breaks a rule, and tells
-- alerters of failed services, new log lines and new events.
--
-- Its objects all derive from `dbTools` (src/dbTools.cpp, include/alerter.h): each takes a connection
-- from the pool with `grab`, keeps it in its field `db`, and gives it back with `release`. An
-- `agentClient` asks its agent through an `HttpClient`, stores the services of the report itself, and
-- hands the samples of each metric to a `ressourceClient`. Both tell the one `alerterManager`.
--
-- Files, and the code that they model:
--   Base, Double, World, Monad: what all parts use. `M` is an operation on the world that may return,
--     throw or have undefined behaviour; `World` has the trace of all effects, newest first, and each
--     object's field `db` under the object's address. Monad also has the macros myqExec and myqCatch of
--     include/backend.h. Monad.Keeps, Monad.Gives and Monad.Runs are the lemmas on operations:
--     invariants of the world, properties of the results, and runs in steps; Monad.Sends is for
--     operations whose statements are known, Monad.Returns for those that always return.
--   Binding: whether the placeholders of a query's template have values.
--   Json, Json.Read: jsoncpp. TestJson, TestDoc and TestEnv are concrete instances for tests.
--   DbTools: src/dbTools.cpp. Its children Have, Get and Name are the methods by their first word, and
--     Call is a method call of any object.
--   DbPool: the class dbPool of include/backend.h. DbPool.Calls is a row of its calls.
--   HttpClient: the class HttpClient of src/config.cpp.
--   Log: src/log.cpp.
--   Alerter: src/alerter.cpp. Alerter.Plugins is the constructor of alerterManager, Alerter.Lua the
--     class luaAlerter.
--   Ressource: src/ressourceClient.cpp; Ressource.Parse is its method parse.
--   AgentClient: src/agentClient.cpp. AgentClient.Service is the body of the loop over the services in
--     collect, AgentClient.Collect the rest of collect, AgentClient.Counter updateCounter;
--     AgentClient.Paths and AgentClient.Ressources are createRessources, AgentClient.Tables createTables,
--     AgentClient.Api init and updateApi, AgentClient.Thread the constructor and startThread.
--   Config: the class Config of src/config.cpp.
--   StatAggregator: src/statAggregator.cpp. StatAggregator.Texts has its SQL, Columns the columns of one
--     data type, Loading the loop over the data types, Turn the loop over the tables, Thread the rounds.
--   AgentManager: src/agentManager.cpp.
--   Main: main of src/backend.cpp, with the rounds of the agents' threads between its own; Main.Boot is
--     what comes before.
--
-- How the code corresponds: a method is a function of the same name in snake case. The object's fields
-- that change are an argument and part of the result (`State`, `HttpClient`, `AgentClient`); the others
-- are in a record of their own. `mysqlpp::Query` is a template and the list of its defaults, with the
-- text of the source; what mysql++ leaves in a query object that is used again is an argument. C++ leaves
-- the order of evaluation of arguments and operands open; the model takes them from left to right.
-- `std::map` and `std::set` are lists in the order of the keys.
--
-- Parameters: mysql++, Simple-Web-Server, the clock and the pool's safe_grab answer through the record
-- `Env`, where each answer may depend on the whole trace and may be an exception. jsoncpp is the record
-- `Jsoncpp`. What a theorem needs of them stands among its hypotheses, with an instance in a witness.
--
-- Numbers: a `uint32_t` that the code adds to is kept modulo 2^32. A `double` is a whole number of units
-- of 2^-1074, which every finite double is; `float` values are those that jsoncpp's asFloat gives. Texts
-- are lists of characters, and positions in them are those of an ASCII text. `to_string` runs on n + 1
-- rounds of fuel for the number n, which has fewer digits than that. A sum of doubles is rounded to 53
-- bits, found in 2048 halvings, which are enough for any finite double.
--
-- Threads: a round of a thread is one operation, and rounds of different objects follow each other in any
-- order that a schedule names. Inside a round other threads matter only for the pool's count, whose
-- accesses at the same time are not modelled.
--
-- Not modelled: the data race of several threads on the pool's count; what mysql++'s safe_grab does with
-- the pool, besides its answer; the null members that jsoncpp's operator[] adds to a document that is read
-- where it lacks them, so that `createTables` may also meet a null definition that `createRessources`
-- looked for in vain; what mysql++ does with a default whose name the template lacks (a query counts as
-- bound if each placeholder has a default of its own name); what a Lua script does with an alert; the
-- mutexes of the log and of luaAlerter; the other destructors; how long a thread sleeps; the copies of
-- selene and of Simple-Web-Server; the schema of the database.
pub mod Base
pub mod Double
pub mod World
pub mod Monad
pub mod Binding
pub mod DbTools
pub mod Alerter
pub mod Json
pub mod Ressource
pub mod StatAggregator
pub mod HttpClient
pub mod Log
pub mod Main
pub mod DbPool
pub mod AgentClient
pub mod AgentManager
pub mod Config
pub mod TestEnv
pub mod TestDoc
pub mod TestJson
