-- ===== src/Lib.antt =====
-- Verification of the programs of an operating systems laboratory, written in C: a doctor's
-- assistant with an event queue, demand paging, job control, user threads, and others. Each
-- assignment is a folder, and each of its programs a process that works with the others through
-- queues of messages, semaphores, shared memory or pipes.
--
-- Prelude passes on the library's names and adds Boolean tests, lists under native indices, and
-- signed integers. No file keeps a program's state outside of explicit records.
--
-- Event (A6/event.c, A6/event.h) is the priority queue of events: `eventcmp`, `addevent`,
-- `delevent`, `nextevent` and `init_eq` are the functions of those names, `empty_q` is emptyQ. The
-- array is the list of its first `n` cells, with the 128 cells of the allocation as a bound. The
-- loops run on fuel (`sift_up`: the index and one, `sift_down`: the length and one); an exhausted
-- counter or an index out of range is `none`, and the theorems show that neither happens. fscanf is
-- not modelled: `scan` gets the records that it delivers.
--
-- Paging (A8) is demand paging. Paging/Mmu is the loop of mmu.c, one function for each branch of
-- the handler; Paging/Master is the set-up and the allocation of frames in master.c. The shared
-- segments and the two message queues into which the MMU writes are one record, `Memory`; messages
-- are kept in the order of sending. Loops over arrays run on the number of rounds left. Random
-- numbers are arguments. Failing system calls, delays and printed lines are not modelled, and
-- counters do not wrap. Paging/Master/References has the reference strings that the master writes,
-- and how a process (A8/process.c) copies, splits and reads them, with sprintf's %d, strtok and
-- atoi written out for these texts. What sprintf leaves in its target when that is an argument too
-- is the parameter `overlap`, and a string that is too long for the array of the process is `none`.
-- So is a set-up without pages, in which rand() % m has no value.
--
-- Jobs (A2/mgr.c) is the job manager: `step` is one command of the loop of main, or a signal at the
-- prompt. The process that fork returns and the signals that arrive during waitpid are arguments of
-- the commands, and the calls of kill are kept in their order. A signal between the choice of a slot
-- and the wait for the child is not modelled.
--
-- Session (A6/session.c) is the doctor's assistant: Session/Turn has one round of the loop of main
-- (`turn`), the visits (`attend`) and the end of the session (`wind_up`); Session/Clock has
-- get_time. The queue is that of Event. The threads blocked on a condition variable are the lines
-- of visitors, whose lengths are the counters num_waiting_*; which thread is woken is the parameter
-- `pick`. The loops over the waiting visitors run on their number and one as fuel, and `session` on
-- a number of rounds. A call that never returns, and an index outside of visitor_infos, are `none`.
-- In `turn` the hand-over by asst_done and the barrier are one step, and the parameter `heard`
-- tells in which states it is done, without a lost signal or a thread that passes the barrier
-- early. Session/Handover models them for one visit of a patient: `thread_step` is the next step of
-- the assistant, the doctor or the patient, `thread_move` also a wakeup without a signal, and the
-- states that the steps reach are all computed (Prelude/Explore). The visit begins with the
-- creation of the patient's thread, and no other visitor waits.
--
-- Threads (A7/foothread.c, A7/foothread.h) are the user threads. `access` is the next access of a
-- thread to the semaphore or to the field tid in foothread_mutex_lock and foothread_mutex_unlock,
-- and `interleave` runs the threads in a given order; a thread unlocks only what it has locked.
-- `exit_step` is foothread_exit and `barrier_step` foothread_barrier_wait: the part under the mutex
-- is one step, with all of the releases of the last caller. Threads/Create has `foothread_create`
-- and the attributes.
--
-- Prodcons (A4/prodcons_21CS30009.c) is the producer and its consumers. `act` is one access to the
-- cells M[0] and M[1] by the producer (`produce`) or by a consumer (`consume`), and a list of
-- actors is an order of these steps.
--
-- Rsync (A9/rsync.c) makes one file tree a copy of another. A path is what it names: `sync_item` and
-- `change_item` get an item of the source and what stands in its place in the destination, and give back
-- what stands there at the end; `purge` is the second loop of sync_directories. The functions recur on
-- the tree. Permissions are stored and not enforced, and the times of directories are left out.
--
-- Sorting (A5/worker.c, A5/boss.c) is the topological sorting: `work` is the next access of a worker to
-- a semaphore, to the list T or to *idx, and `boss` the verdict after n notifications. All semaphore
-- operations of the source are on member 0 of their set.
--
-- Cities (A1/proctree_21CS30009.c) is the tree of processes: `read_word` is the body of the reading
-- loop for one word of the file, and `print_city` a process after reading, for a number of
-- generations as fuel; enough of them are the generations of the tree. atoi and sprintf with "%d"
-- are parameters, through which a child gets its indentation. A word that is too long for its array
-- is `none`. The lines are in the order of the calls of printf.
--
-- Shell (A3/CSE_21CS30009.c) is the pair of processes that send each other commands:
-- `enter_command` is a round of the loop in the role of the user, `receive_command` one in the
-- other role, and `move` a round of one of the processes on both pipes. The parameter `can_run`
-- tells whether execvp finds the program of a command: a child for which it does not goes on in the
-- loop, which is `none`. Shell/Relay has the specification (`Talk`, `obey`).
--
-- Treesum (A7/computesum.c) has a thread for each node of a tree, over the barrier of Threads.
-- `node_step` is the next step of a thread, to arrive at a barrier, to pass one, or the work
-- between the two barriers, and a list of nodes is an order of these steps. Treesum/Barriers counts
-- the threads at each barrier, and Treesum/Sums has the specification (`Total`).
--
-- Paging/System is the whole of A8 at work: `system_step` is the next step of the scheduler
-- (A8/sched.c), of a process (A8/process.c), or of the MMU with its handler, over the message
-- queues and semaphores between them, and a list of programs is an order of these steps. An answer
-- goes to any process that waits.
--
-- Generate has the programs that write input for the others, with the values of rand() as a
-- parameter: Generate/Gentree (A7/gentree.c) writes the tree for Treesum, Generate/Gengraph
-- (A5/gengraph.c) the graph for Sorting, and Generate/Arrival (A6/arrival.c) the visitors for
-- Event. The loop of the tree runs on the number of nodes as fuel. The files hold numbers, and not
-- their digits.
--
-- Workers (A6/examples/E1.c) has threads that change the entries of an array until the master stops
-- them: `run_next` is the next step of the master (`master_at`) or of a worker (`worker_at`), or a
-- wakeup of a worker without a broadcast, and Workers/Values has the values that an entry can take.
--
-- Alternation (A5/examples/E1.c) has a producer and a consumer that take turns: `exchange_step` is
-- the next step of one of them, and the number of rounds is a parameter.
--
-- Not modelled: the practice programs A1/examples to A4/examples, and A2/job.c, which prints letters.
pub mod Prelude
pub mod Event
pub mod Paging
pub mod Jobs
pub mod Session
pub mod Threads
pub mod Treesum
pub mod Workers
pub mod Alternation
pub mod Prodcons
pub mod Rsync
pub mod Sorting
pub mod Cities
pub mod Shell
pub mod Generate
