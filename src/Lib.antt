-- ===== src/Lib.antt =====
-- Verification library of rouille, a web framework: the code of the crate's own logic, translated
-- function by function, and the theorems on it. tiny_http, the file system, the clock and other
-- crates (percent_encoding, form_urlencoded, multipart, base64, serde_json, deflate, brotli) are
-- parameters.
--
-- The parts and their files:
-- - Common: texts as lists of code points, bytes as lists of numbers, the operations of `str` and
--   of iterators that the code uses, bitwise operations, and UTF-8 (Common/Utf8).
-- - Websocket, the folder src/websocket. LowLevel is `StateMachine` and its iterator of
--   low_level.rs; Unmask is the iterator `Data`; Elements is the loop that runs the iterator;
--   Decoder is the decoder of one byte at a time that LowLevel/Refinement proves it to implement.
--   Frame is `send`, Connection the state and the loop of `Websocket::next` of websocket.rs, and
--   Handshake is `start` of mod.rs.
-- - Http: Body and Response are src/response.rs, with one child for each group of operations on
--   headers; Request is the part of src/lib.rs on requests.
-- - Input, the folder src/input: priority headers, cookies, authentication, and bodies. Post is
--   src/input/post.rs: Fields has the implementations of `DecodePostField`, Form the macro
--   `post_input!`, Values what each field is to have, and Decoding the loops against it.
-- - Routing: `router!` of src/router.rs in its two styles, `find_route!` of src/find_route.rs and
--   `accept!` of src/input/accept.rs.
-- - Session, ContentEncoding, Assets: src/session.rs, src/content_encoding.rs, src/assets.rs.
-- - Server, src/lib.rs: Executor is `Executor::Threaded` and its threads as a step relation, with
--   Counting, Tallies and Completion for its invariants; Polling has the loops of `Server` over any
--   executor, and Polling/Threads relates them to the step relation; Start is the type `Executor`,
--   the making of a server and `start_server`; Process is the closure of `process`.
-- - Gateway: Proxy is src/proxy.rs, Cgi is src/cgi.rs, and Lines the loop over lines that both
--   have.
-- - Logging: src/log.rs, and in ErrorChain src/try_or_400.rs.
-- - Examples, the folder examples, whose applications put the parts together: LoginSession is
--   login-session.rs, with Table for its routes, Concurrent for requests that overlap and Sequence
--   for requests one after the other; Echo is websocket.rs; Database is database.rs;
--   HelloWorld is hello-world.rs within `process`; SimpleForm is simple-form.rs; Branches has what
--   they share of `router!`.
-- Server takes a request of tiny_http, makes a Request of it, and runs the handler in a thread.
-- Handlers read a Request with Http/Request and Input, choose by Routing, and give a Response,
-- which ContentEncoding and Session change; a Websocket takes over the stream of an upgraded
-- response.
--
-- How state is modelled: a panic is the result `none` (in Routing, the outer `none`). The body that
-- requests share behind a lock is a place in a store that the operations pass on. A stream is a
-- value of a parameter's type that each read and write passes on. The bytes that a `Box<dyn Read>`
-- brings are a list, with a flag for a read that fails behind them. Numbers of the program that
-- wrap around or saturate are written out with their bound.
--
-- Bounds and fuel: the loop over a decoder's elements runs for two rounds for each byte of input
-- and two more, which the refinement theorem shows to be enough. The loop of `Websocket::next` runs
-- for a number of turns, since it waits for as long as the client sends no message; each turn ends,
-- and two turns are enough for a whole frame. The thread of examples/websocket.rs runs for a number
-- of rounds as well, and one for each text and one more are shown to be enough. The loop of
-- `start_server` runs for a number of rounds, since it serves for as long as requests come. All
-- else is recursion on the data.
--
-- Not modelled: `server_addr`, iterators' size hints, and the examples that are a call of one
-- function of the library (static-files.rs, reverse-proxy.rs, php.rs, git-http-backend.rs). The
-- threads of the executor interleave between their steps and not within them, and atomic operations
-- are taken one after the other; the closure for a request is a function, so that one which never
-- returns is a thread that makes no more moves; of the crate threadpool only what `new` and
-- `execute` document is used. The parameters of one branch have one type in the model. What is
-- printed on the console is left out.
pub mod Common
pub mod Server
pub mod Gateway
pub mod Logging
pub mod Websocket
pub mod Http
pub mod Input
pub mod Routing
pub mod Session
pub mod ContentEncoding
pub mod Assets
pub mod Examples
