-- ===== src/Lib.antt =====
-- Four systems programming assignments in C, one directory each, modelled and verified.
--
-- HW3 (Threads): threads in one process. `thread_setup` (HW3/threadtools.h) makes a control block and
-- fills its `jmp_buf`; `scheduler` (HW3/scheduler.c) jumps to the running thread and is entered by
-- `longjmp(sched_buf, …)` with 1 from the signal handler, 2 from `lock`, 3 from `thread_exit`.
--   Threads/Word: the `int` as a 32-bit pattern; overflow, undefined in C, wraps.
--   Threads/Types: `struct tcb`, `struct Bank`, the globals, the mask; a `jmp_buf` is a `Point`.
--   Threads/Bodies: the functions of HW3/threads.c, an activation at a time, and `lock`, `unlock`.
--   Threads/Signals: `thread_yield` and the handler's mask. Threads/Scheduler: `scheduler`, on arrays
--   of addresses. Threads/Machine: `main`, and `step`, one turn from a jump to the next one.
--   Threads/Queues: the order of the two queues, and that each step of `scheduler` keeps it.
--   Threads/Totals: sums of a weight over the threads in both queues, and what a turn does to them;
--   Threads/Work weighs the turns that are left, Threads/Ledger the bank operations to come.
--   Threads/Safety, Startup, Exclusion, Ending, Termination, Series, Account, Masks: what follows.
--   Threads/OneSignal: runs in which only SIGTSTP or only SIGALRM arrives, as without an alarm or
--   without a keyboard.
--   Signals arrive in the `sleep` of a turn, in any number and order; a turn is otherwise atomic. The
--   timing of `alarm` is left open: SIGALRM may arrive in any sleep. `malloc` does not fail.
--
-- HW4 (Pool): a thread pool. Any number of workers run `tpool_worker`, and one client thread calls
-- `tpool_add`, `tpool_wait` and `tpool_destroy` (HW4/my_pool.c), in any order and interleaving.
--   Pool/Types: the pool, and where its threads stand. Pool/Steps: one step for each critical section
--   and for each access outside one; a condition variable may wake a thread for no reason.
--   Pool/Invariant, Safety and Holders: what holds in every state that is reached. Pool/Ranks and
--   Pool/Progress: how the calls go on and end, by a rank of the states.
--   Pool/Programs: `main` of HW4/testcases/sample/main.c and of bench/main.c as the client thread, a
--   list of calls over any number of workers. Pool/Programs/Collatz: the task of the benchmark, with a
--   `long long` as a 64-bit pattern and the rounds of its loop as fuel, beside the map on the numbers
--   that says how much is enough. Pool/Programs/Draining, Budget, Ending and Mains: how the programs
--   go on and end.
--   A task is a function and an argument, and its execution is an event. The release of the pool's
--   own memory is not modelled.
--
-- HW1 (Board): a bulletin board. The server (HW1/server.c) keeps ten records in a file and answers
-- "pull", "check" and posts; the client (HW1/client.c) prints the posts that it gets.
--   Board/Server: the handlers. Board/Client: the printing of a reply, and the request of a post.
--   Board/Session: a round of the client's loop over its commands.
--   Board/Locking: several servers on one file, with `is_locked` and `dolock` interleaved.
--   Board/Visit: a client at work with the server, among other clients; Board/Visit/Screen: what its
--   user is to see; Board/Visit/Plain, Prompts and Seen: what the client prints.
--   Board/Setup: `init_server`, `init_client`, and `main` of the server up to its loop, with the results
--   of the system's calls given. Board/Starts: what the start of the server leaves.
--   Board/Connections: the loop of the server over `select` and the table of requests; Board/Lifetime:
--   any number of its rounds, from the start on.
--   Board/Spec: the board without bytes, file or request locks; Board/Refinement: the server
--   against it, request by request; Board/Answers: a round of Board/Connections against it. Board/Slots, Slot, Storage, Writing, Views, Display and Rounds: what else
--   follows.
--   The server reads the file at the head of a round, and answers the requests of the round from what
--   it has read: a request says whether its round ends behind it, so that any number of them may
--   share a read. `last` is an `int`: where ten more than its successor is no `int` any more, the search
--   for a slot finds none. A client that has gone leads to a `free` that C does not define, where a
--   round of the model ends.
--   Whether another process has locked a record is a parameter, since `fcntl` says it, and so is
--   memory that the code reads before it writes it. A string is read with as much fuel as the array
--   has bytes behind its start, so no read leaves the array; a string in a well-formed record is
--   shorter. What `select`, `accept` and `read` return are events of a round. A
--   request is taken to arrive in one `read`, alone. The file is taken to open.
--
-- HW2 (Services): a tree of services, one process each, that pass messages down and answers up.
--   Services/Types: the lists of children, the messages and their words. Services/Handlers: what a
--   service does with "spawn", "kill", "find" and "exchange". Services/Manager: the commands.
--   Services/Loop: the loop of the manager on the words of its input. Services/Spec: the commands on a
--   forest of names, without processes or messages; Services/Refinement: the manager against
--   it. Services/Messages, Search, Growth, Kills, Forests: what else follows.
--   Services/Descriptors: the pipes and descriptors that `create_service` gives a service and its child;
--   `pipe`, `close` and `dup2` are an interface with what their manual says of a table.
--   Services/Descriptors/Links and Life: the two tables behind `fork`, and those of later times.
--   A message goes down and its answer comes back before the next, so a handler is a function on the
--   tree. A service that waits for ever makes the command return nothing. What a buffer or a block
--   holds before it is written is a parameter. A new service is taken to have read its first message
--   before the next command; what it prints when it starts is not modelled. Names fit their arrays,
--   and no service but the first is named "Manager", since it would read the commands too.
--   Behind the end of the input the manager is not modelled.
--
-- The judge of HW1 (HW1/samplejudge.py) is a test script, and not modelled.
--
-- Prelude: tests on numbers, C strings, lists, arrays and sums over them, which the models share.
pub mod Prelude
pub mod Threads
pub mod Pool
pub mod Board
pub mod Services
