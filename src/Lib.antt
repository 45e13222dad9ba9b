-- ===== src/Lib.antt =====
-- The course projects of network programming: a remote working shell (np_simple, np_single_proc and
-- np_multi_proc), an HTTP server with a console, and a SOCKS4a proxy. This library models the SOCKS
-- server with the client that speaks to it, the shell of np_multi_proc, the requests and sessions of
-- HTTP, and the sessions and output of the console, and of np_single_proc the users, the pipes, the
-- lines and the loop of the server, and the shell of np_simple.
--
-- How the parts interact. A SOCKS session reads a request (Request), asks the firewall (Firewall), and
-- either refuses it or connects or listens and then relays bytes (Session); the console builds the
-- request that it sends (Client) and tests the reply (Response). In the shell, a line is parsed
-- (Parser) and its commands run (Run) with pipes between them (Pipes) or are built in (Builtin); every
-- user is served by a process of its own, and the processes share the users (Users) and a queue of
-- messages (Messages) as text in two segments of shared memory, each behind a semaphore; the server
-- (Server) tells the users what happens through the queue.
--
-- Files:
--   Prelude, Prelude/*: the library's names, tests on numbers, lists, and texts as lists of byte
--     values.
--   Cxx/*: what the sources use of C++ and its library: regular expressions (Regex), the extractors of
--     istringstream and getline (Stream), numbers as text (Decimal, Numbers), std::map (Map, TextMap)
--     and the byte order of the network (Net).
--   Socks/Request, Socks/Response: project4/src/socksServer/src/Socks4aRequest.cpp,
--     Socks4aResponse.cpp.
--   Socks/Client: size and byteArr of project4/src/consoleCgi/src/Socks4aRequest.cpp, and writeSocks4
--     of ConsoleSession.cpp there.
--   Socks/Firewall/*: project4/src/socksServer/src/Firewall.cpp; isPermit is is_permit, and the body
--     of loadConfigFile is read_rule and add_rule.
--   Socks/Session/*: project4/src/socksServer/src/SocksSession.cpp; Model has the negotiation, one
--     function for each completion handler, and Tunnel the four handlers of the relay.
--   Socks/Wire: the client's bytes against the server's parser. Socks/Through: the client's packet
--     through the parser, the resolver, the firewall and the session.
--   Shell/Parser/*: project2/src/np_multi_proc/src/Parser.cpp, the same file as in np_single_proc.
--   Shell/Users/*: UserManager.cpp of np_multi_proc. Shell/Messages/*: MessageManager.cpp.
--   Shell/Pipes/*: PipeManager.cpp; Model has the pipes of one shell and Fifos those between users.
--   Shell/Server/*: MultiProcServer.cpp, on the two segments and the directory of FIFOs.
--   Shell/Run/*: execute and executeForkedCommand of NPShell.cpp; run_commands is the loop over the
--     commands, and each of its branches a function. World is the state; what it does outside,
--     programs that are started with the calls of their processes included, is a list of events. Child
--     gives the calls of childPipeHandler a table of descriptors. Client is the loop over the lines of
--     a client in run of MultiProcServer.cpp.
--   Shell/Builtin/*: BuildinCommand.cpp, and setEnv to resetEnv of NPShell.cpp.
--   Single/*: project2/src/np_single_proc/src/UserManager.cpp; Users is the code, on a heap of users
--     with pointers as its keys, Indexed, Arrived and Renamed say how the maps and the heap fit, and
--     Table, Requests and Refines compare the operations with a table of users. Single/Pipes,
--     Single/Between: PipeManager.cpp there. Single/Server, Single/Left: SingleProcServer.cpp there.
--   Single/Run/*: World, Users and Model are NPShell.cpp there, Builtin is BuildinCommand.cpp, and
--     Loop is a turn of run of SingleProcServer.cpp. Sound is the state in which no pointer leads
--     nowhere; Heap, Obeying, Sending, Asked, Progress, Lines, Clients and Turns go from the built-in
--     commands and user pipes to a turn. Sent and Delivered follow a user pipe, and Buffer the bytes
--     of a line.
--   Simple/*: project2/src/np_simple/src; Parser is Parser.cpp, Pipes is PipeManager.cpp, and Shell is
--     NPShell.cpp with BuildinCommand.cpp. Bounds and Ends follow a line from the parser through the
--     loop over its commands, and Extends compares Pipes with Single/Pipes.
--   Http/*: project3/src/part1-http/src/HttpRequest.cpp, the same file as in part1-cgi, part2 and
--     project4/src/consoleCgi. Http/Session: HttpSession.cpp of part1-http; Http/Route:
--     HttpSession.cpp of project3/src/part2. Passed and Served follow a request through them.
--   Console/Render: renderOutput of project4/src/consoleCgi/src/Console.cpp; Literal and Shows read
--     what it writes as a browser does. Console/Start: start and getCgiEnv there. Console/Session:
--     ConsoleSession.cpp there, one function for each handler, which gives the operations that it
--     starts; Direct is ConsoleSession.cpp of project3/src/part1-cgi, and Waits compares the two.
--     Script, Told and Dialogue run it against a server, and Record and Reach against any answers.
--   Socks/Samples, Console/Samples, Single/Samples, Single/Run/Samples, Simple/Samples, Shell/Samples,
--     Shell/Pipes/Samples, Shell/Server/Samples, Shell/Builtin/Samples, Shell/Run/Samples,
--     Http/Samples: runs at fixed inputs.
--
-- Names keep the words of the source: Socks4aRequest::needDomainResolve is need_domain_resolve. An
-- operation of an object takes the object last and returns it. A system call is an entry of a list
-- that the handler returns, and what the system answers is an argument: the resolver, the content of a
-- file, a port, descriptors. A result of type Option is `none` where the source would read or write
-- past a buffer, throw, or go on with a value that was never set or with an iterator that leads
-- nowhere. The two removals of a user read an iterator whose entry they have erased: an argument
-- `kept` says whether the memory of the entry still holds what it held, and if it does not the result
-- is `none`.
--
-- Bounds and fuel. Ports are taken modulo 2^16 and addresses are below 2^32, with the byte swaps of a
-- little-endian host. Process ids, user ids and descriptors are natural numbers without overflow;
-- where the source gives -1 for no user, the model gives `none`. A text for a client of np_single_proc
-- counts as sent when it is written to cout. The loop of the parser runs on fuel of one more than the
-- length of the line, the loop of idMin on one more than the number of users, and the decimal digits
-- of n on n + 1; Parser/Total and Users/Ids show the first two to be enough.
--
-- Not modelled: output to the terminal, failures of the system calls on shared memory, what a stream
-- does with a number that does not fit or a line that does not start with one, regular expressions
-- with groups, alternation or bounds, the accept loops and main functions; the programs that a shell
-- starts; the shell of project1, an earlier version of np_simple; the page that the console starts
-- with; the panel's pages.
pub mod Prelude
pub mod Cxx
pub mod Simple
pub mod Socks
pub mod Shell
pub mod Http
pub mod Console
pub mod Single
