-- ===== src/Lib.antt =====
-- The HTTP server of this repository: how it reads requests from a connection, parses them, decides
-- by `.htaccess` rules who may see a file, and serves files below a root.
--
-- The parts, and the files of the repository they model:
-- Base: shared names. Base/Outcome has the results of a call: a value, an exception, undefined
--   behaviour, or a loop that ran out of fuel. Base/Strings has `std::string` as a list of bytes and
--   its `find`; Base/Tests, Base/Int, Base/Bits and Base/Lists have Boolean tests, signed integers,
--   bits of a number, and lists.
-- Util: util.cpp and util.h. `split_n` runs on fuel, one round for each byte and one more.
-- Http: http.cpp and http.h, the messages, `pack` and `parse_request_frame`.
-- Htaccess: htaccess.cpp and htaccess.h. Addresses are 32-bit numbers in host order.
-- Dns: dns_client.cpp, and the rules that name a domain.
-- Handlers: file_repository.cpp (its files in Handlers/Files), request_filters.cpp, request_handlers.cpp, and the handler that
--   httpd.cpp composes of these.
-- Connection: connection.cpp, the HttpConnection of server.cpp, and `handle_connection` of
--   connection_handlers.cpp. A connection is a record that is passed along: the outcomes of the reads
--   to come, the buffer, the outcomes of the calls of `send` to come, and what was written. The loop runs on
--   fuel; the bytes and the reads to come bound its rounds. Connection/Closing has the closing of
--   sockets, Connection/Lifetime and Connection/Moving the objects that hold them, Connection/Threads the
--   handler that makes a thread for each connection, Connection/Answers what the server answers to a frame, Connection/Accepting the loops
--   of `HttpServer::serve` and of a worker, Connection/Serving the blocking handler below `serve`,
--   Connection/Truncating a reply that `send` takes in part.
-- EventLoop: async_event_loop.cpp. The pollables are a parameter, what `poll` reports is data.
-- AsyncFiles: async_file_repository.cpp, the pollable that reads a file.
-- AsyncHandlers: async_request_filters.cpp, async_request_handlers.cpp and the handler that httpd.cpp
--   composes of these. A function that takes a callback is a task: it returns, throws, or suspends with
--   a read of a file and the callback of that read.
-- AsyncServer: async_http_connection.cpp and async_http_server.cpp. A callback is a constructor of
--   `Pending` or a function of what it captured, and a notification takes the connection to the
--   pollables that are left in the loop. AsyncServer/Steps has the schedules of one connection as a relation,
--   AsyncServer/Served all connections and the listener in the event loop, turn by turn.
-- Listener: listener.cpp and async_listener.cpp, and the listener's pollable among those of the
--   connections.
-- Mocks: mocks.cpp and mocks.h.
-- AsyncConnection: async_connection.cpp, the pollables that read and write, and `read_until` with callbacks.
-- WorkQueue: synchronized_queue.h and the thread pool of connection_handlers.cpp, as relations of steps: the
--   workers counted, and in WorkQueue/Workers the threads with the connections that they handle and
--   the turns they take.
-- Launch: main.cpp and the choice of a server in httpd.cpp; Launch/Site has the handlers of requests that
--   httpd.cpp builds for a directory.
-- Tests: runs on concrete inputs.
--
-- A connection hands frames to the parser of Http, the requests to a handler, and packs its responses.
-- The handler of Handlers uses the paths of Util and the rules of Htaccess. The asynchronous server uses
-- the same parser, rules and responses, in callbacks that the pollables of AsyncConnection and AsyncFiles
-- call when the event loop notifies them.
--
-- Parameters, since their code is not in the repository: `inet_pton`, `getaddrinfo`, the file system,
-- the formatting of dates, `strtol`, and what `recv` and `send` give. What is printed to a log is left
-- out, and so are the texts of exceptions. In the schedules of AsyncServer a notified read of a socket
-- does not block, since `poll` reported it, and a write does not fail; where something undefined happens,
-- nothing is said of what follows. Not modelled: when the descriptors of the asynchronous pollables are
-- closed, which the counts of their pointers decide, and the program of tests.
pub mod Base
pub mod Util
pub mod Http
pub mod Htaccess
pub mod Dns
pub mod Handlers
pub mod Connection
pub mod EventLoop
pub mod AsyncFiles
pub mod AsyncHandlers
pub mod AsyncServer
pub mod Listener
pub mod Mocks
pub mod AsyncConnection
pub mod WorkQueue
pub mod Launch
pub mod Tests
