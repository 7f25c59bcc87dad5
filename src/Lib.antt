-- ===== src/Lib.antt =====
-- A model of the HTTP server: its configuration, its event loop, and what happens to one request,
-- from the bytes that a client sends to the bytes that it gets back.
--
-- The configuration file is parsed into servers (src/Config). The server listens on their ports
-- and handles the events that kqueue reports (src/Server): it reads a request incrementally
-- (src/Parser), chooses a configured server for it (src/ServerFinder), finds the path and the
-- location that its URI means (HttpProcessor/PathFinder), runs the handler of its method or starts
-- a CGI program (HttpProcessor/MethodHandler, CgiHandler) and writes the response
-- (ResponseGenerator).
--
-- Parser models src/Parser: `Session` is a Parser with its RequestPool and the Request that it
-- fills; read_buffer is Parser::readBuffer, step_in its switch, and parse_first_line,
-- parse_headers, parse_body and parse_chunked_body are the functions of these names. A
-- std::exception is `thrown` with the state that it leaves. The loop of readBuffer runs on fuel,
-- the size of the pool and two more: each round moves the offset or ends the loop, which
-- Parser/Total uses.
--
-- ServerFinder models src/ServerFinder: a Search is found, refused with a status, or out_of_bounds
-- where the code reads behind the end of a vector.
--
-- Exchange is the state that the handlers share: the Request and Response, and the effects on
-- files and processes in order. Its System is what the operating system answers (access, opendir,
-- the names in a directory, stat, open, remove, pipe, fork, and std::sort), about which nothing is
-- assumed. A handler returns, throws a StatusCode, or aborts: it does what C++ leaves undefined,
-- or an exception that no handler catches leaves it.
--
-- PathFinder, MethodHandler, CgiHandler and HttpProcessor model the files of these names in
-- src/HttpProcessor and src/CgiHandler; methodRun of the four method handlers is run_get,
-- run_post, run_put and run_delete, and outsourceCgiRequest is outsource_get and outsource_post.
--
-- ResponseGenerator and Mime model src/ResponseGenerator; generate_response_message answers `none`
-- where the code uses an iterator or a variable that was never assigned.
--
-- Status and Message are include/StatusCode.hpp, Request.hpp, Response.hpp and
-- ValidationStatus.hpp, and Utils is src/utils. Common has what the C++ library is used for:
-- strings as lists of bytes, maps as association lists, atol on 64 bits.
--
-- Config is the data of include/Config.hpp, and below it stands the parser of src/Config: Loaded
-- is what reading lines ends with, LocationBlock is get_location_expand, and ServerBlock has the
-- loops of a server block and of the file. The loops take the lines that are left; the one that
-- reads a location inside of a server runs on fuel, one more than the number of lines, of which
-- each round uses one up.
--
-- Server models src/Server: `World` is the Server with its m_fd_set, m_udata_map and change list,
-- and with the heap of the t_event_udata that its pointers mean; a handler ends in a world,
-- `dangling` where it follows a pointer that is NULL or freed (that of an event may be), or
-- `aborted` where a part that it calls does. Events has the handlers of client sockets, Transfers
-- those of files, pipes and the timer, Loop the rest of src/Server/event and the loop of
-- Server::start, and Ports src/Server/socket. Kernel is what the system calls of one handler
-- answer; an allocation never fails. read_pieces, read_output, deliver and store run the events of
-- one descriptor one after the other; the counts that bound the last two are the sizes of the
-- message and of the body, and each event moves at least a byte.
--
-- Sizes are natural numbers: those of the source are sizes of strings and vectors in memory, far
-- below 2^64, and a position that the code tests against npos is an Option. Where atol is compared
-- with a size the number has a sign and is cut at the bounds of a 64-bit long.
--
-- Not modelled: the sockets, kqueue and files themselves, whose calls answer through parameters;
-- logging (src/Log, src/Config/print.cpp) and main.cpp, which only print and start; createUdata of
-- src/Server/event/process.cpp, which nothing calls; and executeCgi, which replaces the child
-- process by the CGI program.
pub mod Common
pub mod Status
pub mod Message
pub mod Utils
pub mod Parser
pub mod Config
pub mod ServerFinder
pub mod Exchange
pub mod PathFinder
pub mod MethodHandler
pub mod CgiHandler
pub mod HttpProcessor
pub mod Mime
pub mod ResponseGenerator
pub mod Server
