-- ===== src/Lib.antt =====
-- Photogram: the auth server and the content server of a photo sharing site (C++).
--
-- The auth server (auth_server_src/) reads raw HTTP from a socket, one thread for each client. The
-- modules follow a request through it:
--   MyServer       auth_server_src/MyServer.cpp and PhotogramAuth.cpp: the listening socket, the accept loop
--                  and main. What the calls of Winsock come to is the record Winsock and the list of
--                  what accept gives.
--   Request        auth_server_src/Request.cpp: the value of a header, and URLParser.
--   FormData       auth_server_src/FormData.cpp: the parts of a multipart body.
--   HttpDef        auth_server_src/HttpDef.hpp: the kinds of requests, and what is read out of each.
--   HttpParser     auth_server_src/HttpParser.cpp: from the bytes received so far to a request.
--   JwtToken       auth_server_src/JwtToken.cpp: refresh and access tokens.
--   ResponseSender auth_server_src/ResponseSender.cpp: the answers and their bytes.
--   WorkWithClient auth_server_src/WorkWithClient.cpp: the loop of a client's thread; Handlers has the
--                  branch of each message, Run the loop over what recv returns.
--   Services       the interface of auth_server_src/WorkWithPostgreSQL.hpp that the thread calls, with
--                  the clock and the libraries.
--   WorkWithPostgreSql
--                  auth_server_src/WorkWithPostgreSQL.cpp, which fills that interface (Api): Tables has the
--                  tables and statements, Queries what is read, Updates what is changed behind the
--                  registration; Calls has its public calls, one by one
--                  and in sequences.
--   HashTools      auth_server_src/HashTools.cpp.
-- The content server (content_server_src/):
--   DbClient       content_server_src/DBclient/DBclient.cpp: Tables has the tables and the statements on
--                  them, Reads the lists of posts and the photos.
--   FormDataParser content_server_src/FormDataParser/FormDataParser.cpp: the parts of a multipart body.
--   AnotherServerConnection
--                  content_server_src/AnotherServerConnection/AnotherServerConnection.cpp: the chain of
--                  handlers that asks the auth server whose token it is; Runs has the order of their calls,
--                  Given what one call gives the callback, also where it throws.
--   TcpConnection  content_server_src/TcpConnection/TcpConnection.cpp: the request handler and the callbacks of
--                  the token check, over the interface ContentApi of content_server_src/DBclient/DBclient.hpp;
--                  Served fills it with DbClient and FormDataParser; Exchange has the handlers of a whole
--                  connection, with the handlers of its check and the callback inside them.
--   TcpServer      content_server_src/TcpServer/TcpServer.cpp and ClientAndServer.cpp: the accept loop, and main
--                  over any sequence of events. An event is the end of an operation of one connection, with
--                  its error code and what it read; the handler of an operation that is not awaited does
--                  nothing. What a handler throws ends the sequence. Follows takes out of a run
--                  what one connection goes through.
--   FormResponse   content_server_src/FormResponse/FormResponse.cpp: the answers of the content server.
-- Shared: Prelude (names and helpers), Rows (tables as lists of rows), Postgres (transactions),
-- Outcome (return, throw, undefined behaviour), Text (std::string
-- and std::string_view over bytes, std::map, std::stoi, std::to_string), Action (code that may throw
-- and changes a state), Json (nlohmann::json). Tests has runs at concrete inputs.
--
-- A text is a list of bytes. Positions are size_t: npos is 2^64 - 1 and differences wrap at 2^64, as
-- in the source; the theorems ask that a text is shorter than npos. A call returns, throws an
-- exception with the text of what(), or is undefined (an empty optional that is dereferenced, the end
-- of a map that is read, a search beyond a literal). What a destroyed string reads as is the parameter
-- `stale`. nlohmann::json, jwt-cpp, boost::json, the clock and the database are parameters (JsonLib,
-- JwtLib, BoostJson, Services, DbApi, ContentApi), and so are the messages of boost::beast (Beast;
-- KeepsStatus is what it documents of the status of a response); what jwt-cpp documents is the record
-- IsJwt, which says nothing of a token in the second that it expires in, and nothing of one that is
-- not issued yet. libpqxx and PostgreSQL are the parameter Server (with AuthServer and ContentServer
-- for what one server uses): which statements are prepared, how a text is read as an id, which ids a
-- sequence gives, what the constraints of the schema admit, whether a commit succeeds. A transaction
-- that does not commit leaves the tables as they were; the ids that its sequences gave stay given. A
-- call is modelled alone on its tables, without other connections that write between its statements. A
-- commit fails only as one that the database has rolled back: the connection that is lost while a
-- commit is under way, where libpqxx throws in_doubt_error and nobody knows the outcome, is not
-- modelled. A text that is searched for is bound as the database takes it (read_text); the texts that
-- are stored are taken to be UTF-8 without a NUL, which PostgreSQL takes as they are. The order of a
-- list of posts is a parameter that knows the limit and the offset: rows of the same time may stand
-- otherwise on another page.
--
-- Fuel: the loop of FormData over the separators has a round for each byte of the request and one
-- more; every round finds a separator further on. That of FormDataParser has a round for each byte of
-- the body and two more, since the end of the first part may be missing. std::to_string writes at most
-- the 20 digits of a size_t.
--
-- A connection of the content server whose request starts no operation is freed, and its socket is
-- closed with it; one whose check has begun is kept by the callback, and stays open where the check
-- fails. Where a callback throws, the check behind it is modelled as if its own handler had gone on to
-- its end; main ends then, and no handler sees the difference.
--
-- Not modelled: the calls of Winsock, boost::asio and boost::beast themselves, whose results are
-- arguments; the interleaving of the auth server's threads, each of which is modelled alone, and the
-- close of a client's socket at the end of its thread: the sockets of Process are those that the
-- listening thread opens, and the last WSACleanup closes them all; the token that the main function of
-- the content server makes and does not use; what is printed to the console.
pub mod Prelude
pub mod Outcome
pub mod Text
pub mod Request
pub mod Json
pub mod HttpDef
pub mod FormData
pub mod FormDataParser
pub mod HttpParser
pub mod JwtToken
pub mod MyServer
pub mod Action
pub mod AnotherServerConnection
pub mod ResponseSender
pub mod Services
pub mod WorkWithClient
pub mod Rows
pub mod HashTools
pub mod Postgres
pub mod WorkWithPostgreSql
pub mod DbClient
pub mod FormResponse
pub mod TcpConnection
pub mod TcpServer
mod Tests
