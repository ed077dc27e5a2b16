-- ===== src/Lib.antt =====
-- A model of py-qgis-wps, a server of the WPS and OGC API - Processes protocols that runs QGIS
-- processing algorithms in a pool of worker processes. Paths are those of the repository.
--
-- A request reaches a handler, is parsed, and gives a job: the executor logs it in a Redis server,
-- hands it to the pool, and the worker that runs it reports its status to the same Redis server.
-- Records live until the periodic cleanup finds them over, or until a client removes them.
--
-- The files, and the code that they model:
--   Prelude (children Tests, Lists, Dicts, Int, Text): numbers, lists, dictionaries in insertion order,
--     integers and texts of Python, as the other files use them. Lower case is that of ASCII letters.
--   Exceptions, Exec: pyqgiswps/exceptions.py, utils/conditions.py and the exceptions of libraries;
--     a method that changes an object and may raise returns the object beside the exception, since
--     what was written before stays written.
--   Json: JSON values as json.loads builds them.
--   Lru (Bounds, Reads): pyqgiswps/utils/lru.py, the class lrucache, by method. The OrderedDict is an
--     association list, the least recently used entry first.
--   Request (Realm): pyqgiswps/app/request.py, the class WPSRequest and its realm check.
--   LogStore: pyqgiswps/executors/logstore.py. Server is the Redis server, a parameter: three tables
--     with the laws for reading after writing that Redis documents, filled by association lists in
--     dict_table. Response is the class WPSResponse of app/request.py with the enumeration STATUS,
--     Jobs the record of a job and what an operation makes of it, Store the operations, Invariant and
--     History the operations in any order.
--   Executor: pyqgiswps/executors/processingexecutor.py. Report is update_status of app/request.py,
--     Run is execute and _run_process, Cleanup is delete_results, kill_job and _clean_processes,
--     Processes is get_processes and reload_qgis_processes. Outcome, Expiry, Cached and Found are proofs.
--   Pool: pyqgiswps/poolserver. Client is client.py as the steps between its awaits, Supervisor is
--     supervisor.py with the timers of the event loop as a table, Workers is pool.py and Worker is
--     the loop of worker.py over the turns that happen.
--   Access: pyqgiswps/accesspolicy.py, with Decision for its proofs. Lizmap (Concerned, Meant) is
--     pyqgisservercontrib/lizmapacl/filters.py from its rules on, Middleware is
--     pyqgiswps/middleware.py with the filters of pyqgisservercontrib/core/filters.py.
--   Validator (Range): pyqgiswps/validator, the values that a literal input takes.
--   Api: Jobs is the part of pyqgiswps/ogc/api/request.py about jobs, Execute its timeouts and the
--     outputs that a request asks for, Inputs the inputs of its document, Store the handlers of jobs,
--     results and files in pyqgiswps/handlers, and Schema the schema of allowed values in
--     pyqgiswps/ogc/api/inputs.py. Visible, Dismiss, Execute/Outputs, Inputs/Read, Schema/Ranges and
--     Store/Access are proofs.
--   Config: pyqgiswps/config.py, the configuration service over the sections of CONFIG.
--     Table is the calls of load_configuration as data and Settings runs them; Stored, Origin and
--     Settings/Loaded are proofs, as is Settings/Documented, with the variables of README.md.
--   Contrib: pyqgisservercontrib/core/componentmanager.py, and Watch is watchfiles.py; Services is
--     proofs.
--   Ows: the checks of parameters in pyqgiswps/ogc/ows/request.py. Kvp is get_data_from_kvp and Get
--     is parse_get_request; Post is parse_post_request over what lxml reads, Post/Inputs its
--     get_inputs_from_xml, and Post/Values the inputs as the service finds them. Checks,
--     Kvp/RoundTrip, Get/Refused, Get/Parsed, Post/Form, Post/Agree, Post/Literal and Post/Given are
--     proofs.
--   Service: validate_request_inputs of pyqgiswps/app/service.py. Inputs, Literal, Complex and Boxes
--     are the validate_input of the inputs in pyqgiswps/inout/inputs.py and basic.py, with convert of
--     inout/literaltypes.py; their names are those of Service. Requested and Accepted are proofs.
--   Bridge: pyqgiswps/executors/processingio.py with io/layersio.py and io/filesio.py. Params is what
--     is looked at of QGIS parameters, Literals, Layers, Files and Definitions make inputs of them, and
--     Values makes values for QGIS of those of a request. Definitions/Outcomes, Parsed and Offered,
--     Values/Enums and Values/Paths are proofs.
--   Cache: pyqgiswps/qgscache. Cache resolves the key of a project, Manager is the class
--     QgsCacheManager with its handlers, and Files is pyqgiswps/utils/filecache.py. Aliases,
--     Location, Fresh, Lookups, Histories and Refusal are proofs.
--   Factory (Answers): the delegate of pyqgiswps/executors/processfactory.py, as moves of a caller and
--     of the sub-process over their queue.
--   Handlers: Ows is handle_wps_request of pyqgiswps/handlers/owshandler.py with the operations of
--     pyqgiswps/ogc/ows/request.py that it calls, from the parsed request on. Download is the class
--     DownloadMixIn of handlers/basehandler.py, Preferences the header Prefer in
--     handlers/processeshandler.py. Allowed, Whole and Applied are proofs.
--
-- Parameters. The time is a number that the caller gives; file operations succeed or fail as a
-- Boolean or a result says; a process is any function on the state of its job, and the pool any
-- function from the log store to an outcome and a log store; the function that kills a worker may
-- raise; the encoding of documents is a function
-- into results; whether a name matches a pattern, or a path a regular expression, is a Boolean test
-- given by the caller. Identifiers of workers, messages and timers are numbers. The files and
-- the storages of projects are given as they are at the moment of a call. What is used of urllib.parse
-- and pathlib, the arguments of a URL, the reading of numbers, and what QGIS reads of a project are
-- functions that the caller gives, as are what lxml and owslib read of a document, the environment,
-- and what ConfigParser makes of a text.
--
-- Bounds. The loop of a download runs with rounds left, one more than the file has bytes: each round
-- but the last one reads a byte or more, where the chunk size is not zero. No other function runs on
-- fuel: loops are over lists, and the eviction loops of the LRU cache are over its entries. Numbers
-- are unbounded, as Python's are.
--
-- Not modelled: HTTP, XML and HTML output, handlers of projects that other packages register with the
-- component manager, destination layers, geometries and times as parameters, what QGIS does with its
-- parameters, sockets and the start of processes.
pub mod Access
pub mod Api
pub mod Bridge
pub mod Cache
pub mod Config
pub mod Contrib
pub mod Exceptions
pub mod Exec
pub mod Executor
pub mod Factory
pub mod Handlers
pub mod Json
pub mod LogStore
pub mod Lru
pub mod Ows
pub mod Pool
pub mod Prelude
pub mod Request
pub mod Service
pub mod Validator
