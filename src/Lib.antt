-- ===== src/Lib.antt =====
-- A verification library of the load balancer: its routers, HTTP parser, connection state machine,
-- reactor, health checker and command line.
--
-- The program is one process per worker. `reactor.py` runs an event loop over non-blocking sockets;
-- each client has a `ProxyConnection` (`connection.py`), a state machine whose handlers the loop
-- calls when a socket is ready or a deadline has passed. A connection parses the request and frames
-- the response with `http_parser.py`, and asks a router (`router.py`) for a backend, to which it
-- reports the disconnect at its end. `health_checker.py` is a thread that probes the backends and
-- marks them in the same router. `main.py` reads the command line and starts one worker, or a
-- supervisor that forks several and waits for them.
--
-- Files and code:
--   Prelude, Prelude/*      Boolean tests, lists and integers over the native numbers, association
--                           lists and sets (Dict), the heap (Heap).
--   Bytes, Bytes/*          the methods of `bytes` and `str`, `int(s, base)` and `str(n)` in use.
--   Config                  constants of `config.py`.
--   Backend, Router, Router/RoundRobin*, Router/LeastConnections*
--                           `router.py`: the two routers, one function per method, under the
--                           methods' names.
--   Router/Routing, Router/Instances
--                           the interface of both routers with its laws, as a record, and the two
--                           routers as instances; `Accounts` is what a counting router adds.
--   Http, Http/Request, Http/Request/*, Http/Response, Http/Chunked, Http/Chunked/*
--                           `http_parser.py`.
--   Connection, Connection/Deadline, Connection/Finish, Connection/Connect, Connection/Handlers
--                           `connection.py`: `ProxyConnection` with all its fields, and its
--                           handlers over any router of the interface. A handler takes what the
--                           socket call at its head returned and changes a `Sys`: the connection,
--                           the shared router and the world (readings of the clock, results of
--                           `connect_ex`, and the effects so far: sockets opened and closed, bytes
--                           sent by `sendall`, entries of the access log).
--   Connection/Events, Connection/Events/*
--                           `Reactor._dispatch` of `reactor.py` for one connection: events and runs
--                           of events. A run is of one connection, and nothing else uses its router
--                           meanwhile; what many connections do to one router is in Worker.
--   Connection/Life, Connection/Life/*
--                           the life cycle of a connection as a relation on what matters of it (its
--                           state, sockets, backend and attempts), that each handler of
--                           `connection.py` keeps to it, and what follows for the attempts.
--   Reactor, Reactor/Selector, Reactor/Deadlines, Reactor/Dispatch, Reactor/Loop
--                           `reactor.py`: the `Reactor` with its tables, registrations and deadline
--                           heap, and one function per method. A round of the loop takes what
--                           `select` returned, with what the sockets answer.
--   Reactor/Deadlines/*, Reactor/Loop/*
--                           the deadline heap through the loops and through whole rounds.
--   Main, Main/Backends, Main/Supervisor, and the files below them
--                           `parse_backends`, `_run_supervisor` and the decisions of `main` in
--                           `main.py`.
--   HealthChecker, HealthChecker/Sweep, HealthChecker/Thread
--                           `health_checker.py`: `_probe`, one pass of `HealthChecker._run`, and the
--                           thread with `start` and `stop`.
--   Worker, Worker/*        what `_run_worker` of `main.py` starts: the router, the reactor over it,
--                           and the steps of the reactor and of the health checker on that router
--                           in any order; the sum over the table of connections (Total), and the
--                           books of the router through each step (Balance, Steps, Counts).
--   Tests, Tests/*          runs at concrete inputs.
--
-- Conventions. Texts are lists of numbers below 256. Numbers are natural numbers, and integers where
-- Python may go below zero (sizes, lengths, positions of the chunk scan). Times are in milliseconds.
-- Each method of a router runs under its lock, so it is one step. A `set` is a list without
-- duplicates, of which only membership is used; a `heapq` is a sorted list, whose head is what
-- `heappop` returns.
--
-- A connection object is a number (Ref) in the order of creation, and `id_of` is Python's `id`, of
-- which only what a theorem names is assumed. The sockets of clients and of backends are numbered
-- apart, each new one with a number of its own, so that a registration belongs to a socket object;
-- that a closed descriptor is given out again, on which what the selector watches depends, is not in
-- the model, and nothing is proved of the registrations. A signal handler is an event of the round,
-- and of the wait of the supervisor, in which it runs.
--
-- The health checker's thread marks a backend between two steps of the reactor, each of which is a
-- call of `_select_timeout`, of `_accept`, of `_dispatch`, of `_expire_timeouts` or of `_reap`. The
-- probe itself touches no shared state.
--
-- Exceptions. `connect_ex` returns an error number or raises (`Dialled`: a host that is not found, a
-- port out of range). An exception leaves the handler and `_dispatch` at once, and `_loop` sets DONE
-- and goes on: `escape` writes the state, `World.raised` keeps `_dispatch` from doing more, and
-- `write_back` takes the mark away. Whether a `sendall` fails is asked of the world for each call.
--
-- Fuel. The scan of a chunked body takes one unit for each chunk and gets one more than the body has
-- bytes; `out_of_fuel` is a loop that has not ended. The chain of `_initiate_backend_connect` and
-- `_fail_backend`, which call each other, gets two more than `MAX_BACKEND_RETRIES`. A handler
-- returns `none` where the chunk scan of the source does not return.
--
-- Not modelled: the set-up of the listening socket; that `socket.socket()` fails for want of
-- descriptors; exceptions of a probe other than `OSError`, which end the health checker's thread; in
-- `main.py` the declaration of the options and the end of `_run_worker`; how long the health checker
-- waits, and the socket calls of its probe; log output other than the access log;
-- `mock_backends.py`; the limit of 4300 digits of `int()`, and that `int()` of an ASCII text refuses
-- the separators 28 to 31 around the number, which are stripped here as white space.
pub mod Prelude
pub mod Config
pub mod Backend
pub mod Bytes
pub mod Http
pub mod Router
pub mod HealthChecker
pub mod Connection
pub mod Reactor
pub mod Worker
pub mod Main
pub mod Tests
