-- ===== src/Lib.antt =====
-- CinderHTTP, an HTTP/1.x server in C with a bounded queue of connections and a pool of workers.
--
-- The accept thread pushes client descriptors on a bounded queue, from which workers pop them. A
-- worker reads a request from the byte stream, parses it, answers it from the router or from the
-- files below the document root, and sends the response.
--
-- Text: the C string and buffer routines of the sources, over lists of bytes. A buffer with its
--   length is the list of its bytes; a C string is the list of the bytes before its NUL.
-- Request, Response: src/http_request.c and src/http_response.c, the records and what builds them.
--   A null pointer is `none`. Functions that answer 0 or -1 return a Bool beside the record.
--   Response.Transmit sends head and body: the answers of `send`, `sendfile`, `lseek` and `read` are
--   lists, and a file is a function from its descriptor to its bytes.
-- Parser: src/http_parser.c. A result code is the error of a `Result`; `HTTP_PARSE_OK` is `ok`. The
--   text is cut at its line feeds once where the source calls `memchr` again and again.
-- Queue: src/connection_queue.c. Each function is a critical section between taking or regaining
--   the mutex and releasing it or going to sleep. Other threads act while one sleeps: the queue that
--   it wakes to is an argument. `size_t` additions wrap at 2^64.
-- Reader: src/http_reader.c. A round of the loop outside the program is a turn: the clock's answers,
--   those of `poll`, and `recv` as a function of the space that is left. A call is `none` as long as
--   it waits for a turn. The wait of `poll` itself is not measured.
-- Clock: the `timespec` arithmetic of src/connection_queue.c and src/http_reader.c.
-- StaticFiles: src/static_files.c. The calls `realpath`, `stat`, `open` and `fstat` are a parameter,
--   a record of functions, about which nothing is assumed.
-- Connection: src/http_connection.c, the tokens of a header value and the Connection header.
-- Router: src/router.c; the handlers' function pointers are a data type that `handle` interprets.
-- Client: src/client_handler.c, composed of the models above. A visit is what the calls of one round
--   of the loop answer, `visit` the round, `client_handle` the loop over a list of visits; the result
--   is what was received, sent, closed and reported. It is `none` while a round waits for its
--   client, or while the list is too short: the bound of 100 requests on a connection makes 100
--   visits enough.
-- Config: src/config.c and include/config.h, with `strtol` for a `long` of 64 bits written out.
-- Server: src/server.c and src/thread_pool.c. Server.Steps has the accept loop and the workers as a
--   relation between states, in which a critical section of the queue is one step and a connection
--   is served as `client_handle` does; any interleaving is a sequence of steps. Server.Pool has
--   `server_run` and the functions of the pool as the list of what they do, for every outcome of the
--   calls, and Server.Replay says what each of these deeds needs.
-- Sending: `send_all` of src/utils.c, over the answers of `send`.
-- Stats: src/server_stats.c; each function is one critical section, a run a list of calls.
-- Mime, Decimal: src/mime.c, and the decimal conversions of `snprintf`.
-- Tests: runs on concrete data.
--
-- Allocation is a parameter throughout: a function that says whether a request for so many bytes
-- is granted. Numbers are natural numbers; descriptors and file sizes are integers. The loops are
-- structural recursion on the text, or run on a bound that suffices: one round per header in
-- `http_response_remove_header`, one per digit in the decimal print, and as many as bytes are needed
-- in the doubling of the reader's capacity; its main loop is recursion on the turns.
--
-- Not modelled: freeing memory, logging and the usage text, which have no effect on what is
-- modelled; the set-up of the listening socket and of the signal handlers, and the `SO_RCVTIMEO` of a
-- client socket, which are system calls only; src/main.c, which calls the modelled functions in turn.
pub mod Prelude
pub mod Limits
pub mod Text
pub mod Request
pub mod Parser
pub mod Clock
pub mod Queue
pub mod Reader
pub mod Decimal
pub mod Response
pub mod Connection
pub mod Mime
pub mod StaticFiles
pub mod Stats
pub mod Router
pub mod Sending
pub mod Config
pub mod Client
pub mod Server
pub mod Tests
