-- ===== src/Lib.antt =====
-- A model of leptos_wasi, which serves Leptos applications as WASI HTTP components.
--
-- How the program works, and which file models which part of it:
--
-- A host hands a request to the component. Its body is collected under the budgets of the handler's
-- configuration (src/request.rs and src/handler/policy.rs: Request and Handler/Policy). The handler is
-- then built by a chain of calls, each of which may claim the request: a server function, a static
-- asset, or the router of the application (src/handler/core.rs: Handler/Core, with the assets in Core/Files and chains of calls in Core/Calls), whose route table is validated
-- first (src/handler/routes.rs: Handler/Routes, with the printing of its patterns in
-- Handler/Routes/Discovery). A static asset is looked
-- up under a path that has been validated (src/static_files.rs: StaticFiles), with a content type by its
-- extension (Handler/ContentType). What a server function answers passes the redirect policy
-- (src/handler/server_fns.rs and src/handler/http_util.rs: Handler/Redirect, with the reading of `Accept` in
-- Handler/Accept). Whoever has claimed the request, it is rendered (src/handler/render.rs: Handler/Render): the
-- parts that the application has set are merged into the response (src/response.rs: Response), and the
-- defaults of src/handler/policy.rs (Handler/Plain) are added. Under Preview 2 the handler is built by
-- Handler/Wasip2/Build, from a request that Request/Parts converts; a request that cannot be converted is
-- answered by Handler/Wasip2, which also writes the chunks of a response, and Handler/Wasip2/Send sends
-- the response as a whole (src/handler/wasip2.rs). Under Preview 3 the request is taken in by
-- Handler/Wasip3, answered by Handler/Wasip3/Answer, whose conversion by the host bindings is a
-- parameter, and its response is counted by Handler/Wasip3/Traced (src/handler/wasip3.rs). The counters of a request's trace are Handler/Trace, its span Handler/Trace/Span
-- (src/handler/trace.rs). Under Preview 2 all this runs on a cooperative executor, which drives tasks and
-- waits for pollables of the host (src/executor/p2.rs: Executor, with the registrations, the queue,
-- the dispatch, the queue that a thread finds (Executor/Current), the future WaitPoll, the driving loop and the initialisation as its children; the
-- initialisation of src/executor/p3.rs stands with the last).
--
-- An application redirects through src/utils.rs (Utils). The examples count with a client and a store of their
-- own (src/examples: Counter/Client, with the sending of a request in Client/Send, and Counter/Store, whose tables are maps).
--
-- Http is the interface to the http crate: header maps, header values and URIs, as a record of operations
-- that the other modules take as a parameter, with its documented laws in Http.IsLawful. Http/Laws draws
-- consequences of the laws, and Http/Listed is an instance that meets them, which the tests use.
--
-- Prelude holds what the modules share: Boolean tests on numbers, lists measured by numbers, and the
-- result type. Std models what is used of the Rust standard library: texts as lists of bytes
-- (Std/Str), decimal numbers (Std/Decimal), UTF-8 (Std/Utf8) and the components of a path (Std/FilePath).
--
-- How code is translated: a function keeps its name. A loop body is a function of its own, which says
-- whether the loop is left or goes on; `?` is the bind of Result or of Flow. State that is mutated is
-- taken and returned. Shared registrations live in a heap inside the queue. What is not in the
-- repository is a parameter: the host's streams, timers and pollables, the pool of the futures crate,
-- the header map and header values of the http crate, the tasks of the application.
--
-- Fuel: `drive_until_output` and `collect_loop` take fuel for their rounds, since the host and the guest
-- decide how long they last, and give `none` when it runs out. With a read budget the loop over the
-- body needs no more than 64 rounds for each byte of the limit and 64 more; without one it needs a
-- round for each chunk and one more. Driving a root future needs no
-- more rounds than there is work for its tasks and there are waiting pollables, and one more, where the
-- tasks come to an end and a poll of the host reports one of the pollables that it is asked for. Percent-decoding is structural, and the residual passes are eight at most, as in the code.
--
-- A chunk of a response is written within as many rounds as it has bytes and the stream asks to wait, and
-- a response is sent within as many rounds as a measure of what is still to come, which each chunk of its
-- stream lowers.
--
-- Not modelled: the streams and the reactive context of Leptos (src/integration.rs), which are parameters of
-- Handler/Render, the
-- rendering that discovers routes (src/handler/routes.rs), and the
-- events that tracing logs (src/handler/trace.rs).
pub mod Prelude
pub mod Std
pub mod StaticFiles
pub mod Executor
pub mod Http
pub mod Response
pub mod Handler
pub mod Utils
pub mod Counter
pub mod Request
