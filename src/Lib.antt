-- ===== src/Lib.antt =====
-- Verification of the HTTP/1.2 server: its HTTP library, its XML parser, the server around them and
-- its memory containers.
--
-- The program is a server of several processes. The server reads its configuration, maps the static
-- files, opens its socket, drops its privileges and runs a loop that accepts clients and lets the
-- client handler process them: it receives bytes from a socket and appends them to the HTTP parser
-- of that client; the parser collects them in a buffer, cuts it into requests at the end markers
-- and keeps the requests that it has accepted. Static files and results of application processes
-- are answered through the response generator, which prints a header and tells which bytes to send
-- next. The XML parser cuts a buffer into messages and makes a tree of each. The processes share
-- vectors in shared memory, and the buffers of the clients come from a memory manager.
--
-- The files:
-- Base.antt: numbers, Boolean tests, lists and texts. A text is a list of byte codes.
-- Strings.antt: StringHelper of lib/http/httpparser.hpp. `split` with a list of texts as its
--   result is the overload on `string&`, `split_view` the one on `string_view`. Strings/Split and
--   Strings/Rsplit compare them with descriptions that do not search; Strings/Search and
--   Strings/Cut hold the lemmas on find and rfind; Strings/Enough: the rounds of the loops.
-- Message.antt: RequestProperties_t and lib/http/httpconstants.hpp. An unordered_map is a list of
--   pairs with distinct keys.
-- Parser.antt: HTTPParser of lib/http/httpparser.cpp. `append_buffer` is appendBuffer,
--   `process_requests` is _processRequests and `process_from` its loop, `process_request_properties`
--   is _processRequestProperties, whose part behind the request line is `process_parsed`, and for
--   a POST request `process_post`, `process_length`, `take_payload` and `take_next_payload`;
--   `parse_request_properties` is _parseRequestProperties. A call returns a value or throws, with
--   the state that it has made. Parser/Progress, Parser/Steps and Parser/Append: the invariant.
--   Parser/Line: the request line. Parser/Pipeline: several requests in one buffer. Parser/Post: a
--   request with a payload. Parser/Chunks: bytes that arrive in parts. Parser/Faults: where the
--   parser fails.
-- Modern.antt and Legacy.antt: _parseRequestHeaders and _parseGETParameter of
--   lib/http/httpparser.cpp and of lib/http/httpparser-cpp11.cpp. The rest of the two files is the
--   same text, so HTTPParser is modelled once, over a `Variant`; Legacy/Build names what the C++11
--   build repeats. Variants.antt compares the two builds.
-- Generator.antt: HTTPGenerator of lib/http/httpgenerator.cpp, with Generator/Sending and
--   Generator/Writes on how a response is sent in pieces.
-- Json.antt: JSON::URLParamsMap2JSON of lib/http/httpparser.hpp. Json/Reading: a reader of such
--   texts; Json/Members and Json/RoundTrip: the text, and what is read from it.
-- Client.antt: Client of src/Client.cpp, whose receiveData hands what it reads to the parser; what
--   read returns is a list of results. Client/Receive: what arrives is what is served.
-- ShmVector.antt: SHMVector of src/SHMVector.hpp; ShmVector/Layout on addresses,
--   ShmVector/Contents and ShmVector/Erase against the list of the elements, ShmVector/Faults on a
--   lock that is kept and a product that wraps. ShmVector/Threads: callers at the same time, each
--   write behind the spinlock a step of its own (`step_locked`), the steps in any order (`Step`);
--   Threads/Alone and Threads/Ends: a caller behind the spinlock that nobody disturbs;
--   Threads/Room: the capacity, which `reserve` also reads without the lock; Threads/Order,
--   Threads/Steps and Threads/Behind: the callers against the calls one after the other;
--   Threads/Linear: what follows.
-- MemoryManager.antt: src/MemoryManager.hpp; MemoryManager/Rotation and MemoryManager/Segments.
-- Vector.antt: the erase of several indices of src/Vector.hpp; Vector/MultiErase.
-- Xml.antt: the messages of lib/xml/xmlparser.cpp: splitMessages, ensureParseableXML, trimCopy and
--   resolveEntity. Xml/Tree: XMLNode and populateTree. Xml/Parse: parseMessage, the error handler
--   and XMLParser. Xml/Framing and Xml/Enough: how a buffer is cut into messages, and in how many
--   rounds. Xml/Prolog: what a message gets in front. Xml/Parse/Outcome: what `parse` returns.
--   Xml/Placed and Xml/Parse/Addresses: where the addresses of a tree point.
-- ClientHandler.antt: ClientHandler of src/ClientHandler.cpp, the clients by descriptor and the
--   epoll set; `settle` is what readClientData does with the result of receiveData.
--   ClientHandler/Clients: the map. ClientHandler/Serving: what a round does for each client.
--   ClientHandler/WellFormed, ClientHandler/Accepting, ClientHandler/Invariant and
--   ClientHandler/Reach: what holds in every state.
-- Filesystem.antt: Filesystem of src/Filesystem.cpp, with GetDirListingByFiletype of
--   src/Helper.hpp; `process_file_properties` is processFileProperties and `process_file` its loop
--   body. Filesystem/Keys: the key of a file. Filesystem/Mapping: which files are found.
-- Configuration.antt: Configuration of src/Configuration.cpp. Configuration/Kept: what
--   mapStaticFSData does not change. Configuration/Constructed: what the file does not change.
-- Server.antt: Server of src/Server.cpp, with Signal and Permission of src/Global.hpp. `init` is
--   init, `server_loop` is ServerLoop and `run_round` its body; what the system calls return is a
--   record for the start and one for each round. Server/Privileges and Server/Start: what holds
--   when the loop runs. Server/Loop: how the loop ends. Server/Service: from a connection to its
--   requests. Server/Clients: the clients in every round. Server/Crash and Server/Idle: one client against the server, and when the server sleeps.
-- Cpu.antt: CPU of src/CPU.cpp; Cpu/Affinity: the set that the system gets.
-- Event.antt: Event of lib/event/Event.cpp.
-- AsProcess.antt: ASProcessHandler of src/ASProcessHandler.cpp, as far as it is not commented out;
--   AsProcess/Count: the number of interpreters.
-- Backends.antt: Backend::Processor of src/ASBackend/PythonBackend.hpp (`python_init`,
--   `python_process`) and of src/ASBackend/JavaBackend.hpp (`java_init`, `java_process`);
--   Backends/Results: what of a result reaches the shared memory.
-- Tests.antt: runs of the definitions and the theorems at concrete inputs.
--
-- Fuel: the loops of `split`, `split_view` and `rsplit` and the digits of a number run on fuel.
-- `split` and `split_view` have one round more than the text has bytes, and each round with a
-- delimiter that is not empty takes at least one; the program has no other delimiter. `rsplit` has
-- one round more than its start position, which each round lowers. The loop of splitMessages has
-- one round more than the buffer has bytes, and each round takes a message. The digits of n have n
-- + 1 rounds, and the hexadecimal digits of a 64-bit hash have 16. All other loops are recursions
-- on a list or on a number of rounds that is known before.
--
-- Machine integers: the announced length of a payload, the counter of the JSON text, the counters
-- of the generator, sizes in bytes of a vector, the size of a static file and the count of XML
-- parsers wrap as they do in the source. Sums of lengths of texts are not bounded, since a text is
-- shorter than the address space.
--
-- Parameters: the iteration order of an unordered_map, the clock, malloc, the size and alignment of
-- an element, the error numbers of the system, what uninitialised members hold, the results of the
-- system calls, directories, files and the hash of a file, what the JSON library reads from the
-- configuration file, of Xerces the calls of the error handlers and the document of a text, sets
-- of processors, the interpreters of the backends and the addresses of their shared memory.
--
-- Not modelled: what is commented out, which is most of src/ASProcessHandler.cpp; the mapping of
-- static files into memory, whose address is not kept; messages to the console. SIGTERM is seen
-- where the server loop tests for it, and the pauses between the signals to the children are left
-- out. Of callers that share a vector, the memory is sequentially consistent, and what they do with the
-- reference of `at` after the call is left out, as are their calls of capacity and segment_size.
pub mod Base
pub mod Strings
pub mod Message
pub mod Parser
pub mod Modern
pub mod Legacy
pub mod Tests
pub mod Generator
pub mod Variants
pub mod ShmVector
pub mod Cpu
pub mod Event
pub mod AsProcess
pub mod Backends
pub mod Vector
pub mod MemoryManager
pub mod Json
pub mod Client
pub mod Xml
pub mod ClientHandler
pub mod Filesystem
pub mod Configuration
pub mod Server
