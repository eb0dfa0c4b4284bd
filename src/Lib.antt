-- ===== src/Lib.antt =====
-- A web server for HTTP/1.1 with virtual servers, uploads, basic authentication and CGI programs:
-- the C++ sources under srcs/.
--
-- A configuration file gives settings (ConfigFile), which ServerManager turns into servers, each with
-- its server blocks and their locations. A Server reads requests from its connections piece by piece
-- (recvRequest), chooses the block and the location for a complete one and answers it
-- (solveRequest and the execute methods), and sends the response.
--
--   Base           names that all modules share, and lemmas on lists, options and numbers
--   Text           std::string as a list of byte values, with find, substr and compare
--   Dict           std::map from strings to strings as a sorted list
--   Result         a result of code that throws an int (an HTTP status) or a std::exception
--   Utils          ft::splitVector, ReplaceAll, ReplaceAllModified, itos, stohex of
--                  srcs/Utils/utils.cpp, and std::atoi; Utils/Net: ft::ft_htonl, ft_htons,
--                  ft_inet_addr and inet_ntos of the same file; Utils/Descriptors: fd_set, fd_clr
--                  and fd_isset of srcs/Utils/utils.hpp on the words of a struct fd_set
--   FilePath       the class Path of srcs/Path
--   Request        the class Request of srcs/Request.cpp: ParseURI, AddHeader, ParseVersion
--   Response       the class Response of srcs/Response.cpp
--   Config         LocationPath, serverBlock, Server and ConfigFile as settings; Config/Select the two
--                  searches of srcs/Server_parsing.cpp, Config/Build setServersValue and
--                  isOverlapedServer of srcs/ServerManager.cpp, Config/Brackets the bracket check of
--                  srcs/ServerConfigIdx, Config/Index Step1 and Step2 and Config/Directives the
--                  directives of the same file, Config/Parsed their result, Config/Files SetConfigs
--                  of srcs/ConfigFile/ConfigFiles.cpp, Config/Create CreateServers of
--                  srcs/ServerManager.cpp
--   Server         srcs/Server.cpp: Server/Receive recvRequest and its parsers, Server/Site the state
--                  that an answer is made from, Server/Answer the responses, Server/Execute the
--                  execute methods of srcs/Server_execute*.cpp and the tests of rights, Server/Solve
--                  solveRequest, Server/Run runSend, runRecvAndSolve, runExecute, the acceptance of a
--                  connection and closeConnection of srcs/Server_run.cpp, Server/Serve run of the
--                  same file, Server/Cgi executeCGI, Server/Arguments createCgiArgv and createCgiEnvp,
--                  Server/Manager closeOldConnection, serviceUnavailable and the rounds of
--                  RunServers of srcs/ServerManager.cpp
--   Tests          runs on concrete inputs
--
-- A method is a function from the object to the object as it is left and a result, so that what
-- was changed before a throw is kept. A field of a class is a field of a record, without the m in
-- front. Machine integers keep their width: itos and atoi are on int, stohex on 64 bits.
--
-- Loops over a message run on fuel. parseHeader, the loop over chunks and the loop over a program's
-- headers go behind a CRLF in every round, and splitVector and ReplaceAllModified shorten what is
-- left, so that one round more than the text has bytes is enough; the loops over the lines of a
-- configuration go one line further or end, so that one round more than there are lines is enough.
-- Running out is a result of its own (stuck), which the theorems on those loops exclude.
--
-- What the operating system gives is a parameter: the bytes that read delivers (Input), the file
-- system, the clock and the listing of a folder (Environment), in one state for one request, what
-- the calls of executeCGI give with the program's output (CgiWorld), and which descriptors select
-- finds ready. Changes to files and what is written to a descriptor are recorded in their order. A
-- use of a null pointer, of the end of a container or of an uninitialised value is a result of its
-- own as well, after which the model goes no further.
--
-- A descriptor set is a predicate on descriptors, and Server/Run/Views relates it to the words of a
-- struct fd_set. RunServers is a step relation on the state of one
-- server, in which a step of another server may change the descriptor sets and the counters that
-- the ServerManager holds for all of them.
--
-- Not modelled: the copy of a line reader in gnl, socket, bind and listen, signals, and output to the
-- terminal.
mod Base
pub mod Text
pub mod Utils
pub mod FilePath
pub mod Dict
pub mod Result
pub mod Request
pub mod Server
pub mod Response
pub mod Config
mod Tests
