-- ===== src/Lib.antt =====
-- The web server: a configuration file is read into servers with locations; a client's bytes are
-- parsed into a request; the request is matched with a location; a response is built from it.
--
-- Parts, and the files that model them. A text is a list of bytes (Base/Strings), and a pointer into
-- a buffer is the text from there on.
--   * includes/ConfigManager.hpp: Config. A `Location` and a `ServerConfig` are records with the
--     fields of the structs.
--   * srcs/ParseConf/Tokenize.cpp: Config/Tokens (`SanitizeInput` is `sanitize_input`, `tokenize`).
--   * srcs/ParseConf/Parser.cpp: Config/Parser for the tokens and the directives of a server,
--     Config/Blocks for the directives of a location and the blocks, and `loadConfig` of
--     srcs/ParseConf/ConfigManager.cpp. An exception is an outcome (Config/Outcome).
--   * srcs/Utils/Utils.cpp: Utils; `std::map` is Dict, what is used of the C library is Libc.
--   * srcs/ReqRes/RequestParser.cpp: Request holds the state; its children hold the operations: Lines
--     (`find_line_end`), Uri (`normalize_uri`, `decode_percent_encoding`, `normalize_path`), Setters,
--     RequestLine, Headers, Body, Parse (`parse_request`), Routing (`match_location`,
--     `is_cgi_request`, `is_connection_close`).
--   * srcs/ReqRes/ResponseBuilder.cpp: Response holds the state and the status lines; Pages the pages
--     and the headers; Methods `doGET`, `doPOST` and `doDELETE`; Multipart the forms; Build the
--     routes and `build_response`.
--   * srcs/SessionCookie/SessionCookieHandler.cpp: Response/Session; the id of a session, and the time
--     stamp of srcs/Utils/Utils.cpp, are in Response/Clock.
--   * srcs/CGI/CGIHandler.cpp: Cgi (`setupEnvironment`, `processCGIOutput`), Cgi/Process (the
--     constructor, `startCGI`, `terminate`) and Client/Script (`onEvent`, `finalizeCGI`).
--   * srcs/Server/ClientServer.cpp: Client holds the state, the registration and `terminate`; Reading
--     what is done with the bytes that arrive, Process how a request is answered, Script how a script
--     is waited for, Sending how a response is sent, and `onEvent`.
--   * srcs/Server/Server.cpp: Server (the groups of servers that share an address), Server/Sockets
--     (the listening sockets) and Server/Peers (`accept_peer`, and the events of all listeners).
--   * srcs/Server/IOMultiplexer.cpp: Multiplexer (the table of listeners and `runEventLoop`).
--   * srcs/Server/Logger.cpp: Logger. srcs/ParseConf/ConfigManager.cpp: Config/Manager.
--   * srcs/main.cpp: Main.
-- The server's event loop gives an event to the server, which accepts a peer and gives it a client, to
-- a client, which reads, parses and answers, or to the handler of a script, which hands the response
-- back to its client. The state of a parser, a response, a client or the server is passed on
-- explicitly. The operating system is a record of functions over the states of the machine: `Os` in
-- Response for files, `Kernel` for sockets, pipes, processes and `epoll`; what is asked of it is said by
-- `IsEpoll`, `IsWire` and `IsPipe`. `isValidAddr`, which asks `inet_pton`, is an argument of the parser
-- of configurations. An access through a null or a deleted pointer is the outcome `crashes`.
--
-- Bounds and fuel. A `size_t` wraps at 2 ^ 64, a `short` and a port at 2 ^ 16; a length of a text in
-- memory is taken as it is. The loop over headers has the length of the input and one more as fuel, as
-- the loops over chunks and over the words of a configuration have; the loops over tokens have the
-- number of tokens, and the loop over the parts of a form the length of the body and one more. Every
-- round of these loops reads something. The loop of `parse_request` has its fuel as an argument.
--
-- A run of events of one socket (`handle_responses`) has their number as an argument. A run of events of
-- one pipe (`script_events`) has as an argument the number of events for which there is time before the
-- script exits, which is then told by `EPOLLHUP`; the whole output is in the pipe from the start.
--
-- Not modelled: `IOMultiplexer::terminate`, which reads behind the end of its map; a handler of a script
-- that its client has given up for another one; the calls of `signal`; what the parts log, and the texts
-- of exceptions; the clock, which belongs to `Os` and `Kernel`.
pub mod Base
pub mod Dict
pub mod Libc
pub mod Utils
pub mod Run
pub mod Config
pub mod Request
pub mod Response
pub mod Cgi
pub mod Kernel
pub mod Multiplexer
pub mod Client
pub mod Server
pub mod Logger
pub mod Main
mod Tests
