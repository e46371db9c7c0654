-- ===== src/Lib.antt =====
-- A verification library for CFloor, a web server in C: the parts of it that decide what a request
-- and a configuration mean. The code is modelled function by function; bytes are native numbers,
-- C strings and buffers are lists of bytes, and arrays with a count are lists.
--
-- How the parts interact. `main` reads the configuration with `config_parse` and hands the binds to
-- src/networking.c. This reads a request's head, line by line: the first line goes to
-- `headers_metadata`, which normalises the path with `symbolicRealpath`, and the others go to
-- `headers_parse`. `config_getHandler` then finds the bind, the site for the Host header and the
-- handler for the path by `isInDir`. A handler serves a file, for which it looks up the MIME type,
-- or runs a script; whatever fails is answered by `status`. All of them write to the loggers.
--
-- The files:
--   Base        library names, Boolean tests, lists over native numbers, C strings (Base/Text),
--               fallible code that allocates (Base/Outcomes) and what it ensures (Base/Returning)
--   Headers     src/headers.c, the table: headers_create, headers_find (`find`), headers_get
--               (`get`), headers_remove (`remove`), headers_mod (`modify`), headers_dump (`dump`)
--   Headers/Field   headers_parse (`parse`) on one line
--   Request     headers_metadata, methodString, protocolString
--   RealPath    src/util.c, symbolicRealpath and strremove; the state of its first loop is `Scan`
--   Dir         src/util.c, isInDir
--   Number      src/util.c, strlenOfNumber
--   Mime        src/mime.c, the table and getMineFromFileName
--   Status      src/status.c, getStatusStrings and the page that status() prints
--   Logging     src/logging.c, setLogging, the loggers for a message, getLoglevelString,
--               strtologlevel
--   Config      src/config.h and config_parse of src/config.c: the states of the switch in
--               Config/Tokens and Config/Inner, the switch itself in Config/Switch, the reading of
--               bytes in Config/Reader, the checks behind it in Config/Validate
--   Config/Shape, Config/Valid   the state of the parser between two tokens, and its result
--   Config/Print   the grammar of the README: the text of a configuration and what it stands for
--   Routing     config_getHandler of src/config.c
--   Startup     config_setLogging of src/config.c, and in Startup/Binds config_getNetworkingConfig
--   ToFree      replaceOrAdd and freeEverything of src/config.c
--   Main        src/main.c, from the command line to the start of the network
--   Files       src/files.c, normalizePath and fileHandler; the file system is a record of what
--               realpath, access, stat and open answer; Files/Index has scandirFiler, scandirSort and
--               showIndex, on what scandir returns
--   Network     src/networking.c, dataHandler on one connection, with dumpHeaderBuffer and
--               startRequestHandler; Network/Lines has the reader without a buffer that it is compared
--               with, Network/Chunks the reading in pieces, Network/Requests the text of a request
--   Network/Send   sendHeader, minimalErrorResponse, and the 408 answer of cleanup
--   Network/Encoding   chunkedTransferEncodingThread; Network/Encoding/Decoder reads its output
--   Network/Life   the steps of the threads on a connection: stopThread, safeEndConnection,
--               resetPersistentConnection, the ends of responseThread and requestThread, cleanup
--   Network/Listen   the accept loop of listenThread, as far as the list of connections
--   Cgi         src/cgi.c, the head of a script's output; Cgi/Handler has the checks on the file and
--               the environment
--   Linked      src/linked.c: links by their addresses in a store, with a mark for the freed ones;
--               Linked/Unlink and Linked/Destroy have linked_unlink and linked_destroy, and
--               Linked/Chain says what list a store stands for
--   Each Tests file runs its part on concrete data.
--
-- Errors and memory. Fallible code returns `Result`, and takes and returns the outcomes of the
-- allocations to come (`Alloc`), so that a theorem on all memories covers every allocation that
-- fails. What C leaves undefined, a NULL that is read or an index out of bounds, is an error of its
-- own or the outcome `none`. Release of memory is modelled for the links of src/linked.c, the connections
-- and what the accept loop allocates only.
--
-- Bounds and fuel. The first loop of symbolicRealpath moves its index back and forth; it runs on
-- fuel of one more than the path's length, since the bytes ahead of the index get fewer at every
-- step. The loops over digits run on fuel of one more than the number, and those along a list of
-- links on fuel of one more than the links there are. All other loops are by structural recursion.
-- Lengths are natural numbers: they are the sizes of objects in memory, which are taken to be below
-- the bounds of a C int.
--
-- Threads. `Network.Life.Step` is one step of one thread on one connection, with a step relation
-- (`Reach`) for all orders. What a thread does under a connection's lock is one step, and so is a
-- whole call of dataHandler on the connection. A timeout of a handler is a step of its own
-- (`time_out`), outside the relation.
--
-- Not modelled: sockets, timers and signals (src/networking.c, src/signals.c), the interleaving of
-- the locks in src/linked.c, OpenSSL (src/ssl.c), the copying of a script's body (src/util.c), and
-- what src/main.c does on signals, since they are calls of the operating system for the most part.
-- Which calls of the system succeed, what a script writes, `realpath`, `ssl_initSettings` and
-- whether the server is built with SSL_SUPPORT are parameters (`Plumbing`, `System`, `FileSystem`,
-- `Surroundings`).
pub mod Base
pub mod Headers
pub mod RealPath
pub mod Request
pub mod Dir
pub mod Number
pub mod Mime
pub mod Status
pub mod Logging
pub mod Config
pub mod Routing
pub mod Files
pub mod ToFree
pub mod Startup
pub mod Network
pub mod Cgi
pub mod Linked
pub mod Main
