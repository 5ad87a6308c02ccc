-- ===== src/Lib.antt =====
-- The programs of this repository: a barbershop with a sleeping barber in shared memory, a server
-- and its clients over message queues, an insertion sort library, decimal numbers kept as lists
-- of digits, functions that generate, sort and copy files of records, two
-- interpreters of batch files, three programs that search directories, a parent and a child that exchange signals, and two programs of producers and consumers of the lines of a file.
--
-- Which file models which part:
--   lab6_semaphores_shared_mem/POSIX/common.h, barber.c (the shared segment, the queue of clients,
--     the barber's loop and the start of the shop): Shop. A record of the segment's fields; the
--     barber's loop body between `sem_take` and `sem_return` is one step, `barber_turn`.
--   lab6_semaphores_shared_mem/POSIX/client_spawner.c (`arrive_at_barbershop`): Shop/Client. One
--     iteration between `sem_take` and `sem_return` is one step, `client_turn`, over the local
--     variables of a client and the place of the code where it waits for the semaphore.
--     Shop/System puts both together: any interleaving of turns of the barber and of any clients,
--     as a relation with the reachable states. Shop/Waiting, Shop/Invariant, Shop/Safety and
--     Shop/Progress hold the proofs.
--   lab5_message_queues/POSIX/common.h: Protocol (messages, request types, limits).
--   lab5_message_queues/POSIX/server.c, server.h: Server. The table of clients, every handler, the
--     dispatch and the loop of `main`, as functions of the server's state; a call of `mq_open`,
--     `mq_send`, `mq_close`, `mq_receive`, `mq_getattr`, `getpid` or `time` gets its answer from the
--     record `Answers`, a failed one ends the server by the outcome that `exit` has. Server/Table,
--     Server/Requests, Server/Mirror, Server/Lines, Server/Replies and Server/Loop hold the proofs.
--   lab5_message_queues/POSIX/client.c, client.h: Client (the registration, the requests and
--     `close_queue`); Client/Session puts the client and the server together.
--   lab5_message_queues/SystemV/server.c, server.h: SystemV (the handlers, the loop and the start of the
--     server, as in Server). client.c, client.h: SystemV/Client (the start, the requests, and the turns of
--     the loop). SystemV/Table, SystemV/Found and SystemV/Registered hold the proofs for the server,
--     SystemV/Ends those for the client, SystemV/Session puts both together.
--   lab1_mem_mgmt_and_libs/libraries/sort_library.c, compiler_optimization/insertion.c: Sorting, generic in
--     the key of an element; Sorting/Sifting and Sorting/Laws hold the proofs.
--   lab1_mem_mgmt_and_libs/compiler_optimization/string_to_list.c: Digits, with the proofs in
--     Digits/Value.
--   lab2_file_system/system_vs_lib_io/program.c, utils.c: Records (the positioned reads and writes,
--     `sort_sys` and `sort_lib`), Records/Copying (`copy_sys`, `copy_lib`), Records/Generating
--     (`generate`) and Records/Program (`main`). A file is the list of its bytes; which calls fail or come up short is a
--     parameter. Both sorts are one loop over the interface `Access`, and refine the insertion sort of
--     Sorting. Records/Layout, Records/Compared, Records/Loops and Records/Sorted hold the proofs for the
--     sorts, Records/Copying/Prefix, Records/Generating/Written and Records/Program/Accepted those for the
--     others.
--   lab4_signals_and_pipes/batch_job_interpreter_pipes/cmd_interpreter_extd.c: Commands
--     (`trim_whitespace`, `tokenize`, the loop that deals tokens out to programs), Commands/Pipes (the
--     descriptors of a child) and Commands/Lines (`main`). Commands/Trimmed, Commands/Printed, Commands/Scanned,
--     Commands/Words, Commands/Dealt, Commands/Pipes/Wiring, Commands/Pipes/Streams and
--     Commands/Lines/Started hold the proofs. `none` is an access outside an array.
--   lab3_processes/batch_job_interpreter/cmd_interpreter.c: Commands/Batch, with the proof in
--     Commands/Batch/Stopped.
--   lab7_synch_threads/unnamed_semaphore/main.c: Buffer (the shared memory, the places where a thread can
--     stand, and `Move`, the steps of `produce` and `consume`) and Buffer/System (`set_up`,
--     `create_threads`, `wait_threads`, and the states that can be reached). Buffer/Invariant and its
--     children, Buffer/Places and Buffer/Accounted hold the proofs, Buffer/Safety what follows for the
--     program. The steps of all threads interleave freely; a `sem_wait` is a step only while the
--     semaphore is not 0.
--   lab7_synch_threads/mutex/main.c: Monitor (the places where a producer, a consumer and `main` can stand, and
--     the steps of each). Monitor/Owned, Monitor/Summed, Monitor/Kept and Monitor/Overtaken
--     hold the proofs. The steps interleave freely; a lock is a step only while the mutex is free.
--   lab2_file_system/search_dir: Search (utils.c, and the tree of a directory in the order of `readdir`),
--     Search/Single (search_stat.c) and Search/Walk (search_nftw.c, with the calls of `print_entry` as a
--     parameter). lab3_processes/search_dir_mult_ps/search_proc.c: Search/Processes; the output of a process
--     is what it has written and what is in its buffer, which `fork` copies. Search/Order, Search/Dates,
--     Search/Accepted, Search/Found, Search/Chosen, Search/Split and Search/Repeated hold the proofs.
--   lab4_signals_and_pipes/sigusr/user_sigs.c: Signals (the arguments of `main`, and the calls and handlers of
--     the parent and the child as a step relation: any interleaving of both, with the signals that are
--     pending). Signals/Counted, Signals/Answered and Signals/Lost hold the proofs.
--   Common and its children hold what the parts share: tests on numbers and integers, arrays as
--     lists, printing and scanning of decimal integers.
--
-- How the code corresponds: numbers are unbounded naturals or integers, since each counter of these
-- programs is bounded by its array and each digit by ten; arrays are lists of their length, and a
-- write out of range has no effect. A process id is a natural number. The `while` loop of `add` runs
-- on fuel, the lengths of both lists plus two, and `Digits.Value.value-add` has the proof that it
-- ends within it; the loop that fills a record in
-- `generate` has a round for each byte wanted, which `Records.Generating.Written.generate-length`
-- shows to be enough; the loop of
-- `tokenize` has a round for each character, which `Commands.Words.tokenize-print_line` shows to be
-- enough; division by ten recurses on the order of the numbers; the other loops are
-- structural.
--
-- What is not modelled: the calls of the system themselves (segments, semaphores, queues, files,
-- signals, processes and threads), output to the terminal, the clean-up at exit, and the parts of
-- the other directories: the SystemV variant of the shop, the loop of `main` in POSIX/client.c, SIGINT
-- in the programs that handle it and the program sigs.c of lab4_signals_and_pipes, and the timing helpers of lab1_mem_mgmt_and_libs.
pub mod Common
pub mod Digits
pub mod Sorting
pub mod Shop
pub mod Protocol
pub mod Server
pub mod Records
pub mod Client
pub mod SystemV
pub mod Commands
pub mod Buffer
pub mod Search
pub mod Monitor
pub mod Signals
