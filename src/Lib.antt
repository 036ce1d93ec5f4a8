-- ===== src/Lib.antt =====
-- qgis-scheduler: a daemon that keeps QGIS server processes ready, and hands the FastCGI requests of a
-- web server to them. This library models the core of its C code.
--
-- The parts, and the files that model them:
--   * timer.c -- Timer: intervals on struct timespec (qgis_timer_start, qgis_timer_stop, qgis_timer_add,
--     qgis_timer_sub, qgis_timer_isgreaterthan, qgis_timer_is_empty). The fields are integers; the
--     range of time_t is not modelled. Timer/Laws reads a timer as a number of nanoseconds.
--   * fcgi_state.c -- Fcgi: the bytes of a FastCGI stream. Fcgi/Param has the name-value pairs
--     (fcgi_param_parse, fcgi_param_list_parse, fcgi_param_list_find, fcgi_param_list_write),
--     Fcgi/Message the parser of one message from chunks (fcgi_message_parse), Fcgi/Build the
--     constructors, the getters and fcgi_message_write, Fcgi/Session the session that puts messages
--     together (fcgi_session_parse and its evaluation of complete messages). Memory is the list of
--     the bytes of an allocation; an access outside of it is a fault of Outcome.
--     The numbers of <fastcgi.h> are a parameter, Fcgi/Protocol.
--   * database.c -- Database: the tables projects and processes as lists of rows, and each db_
--     function as a function on them with the meaning of its SQL statement (Database/Processes,
--     Database/Projects). The row that SQLite gives for LIMIT 1 is a parameter. Rows are visited in the
--     order of the table. A wait on the condition variable is given its result, and the tables as the
--     other threads have left them.
--   * qgis_shutdown_queue.c -- Shutdown: one round of qgis_shutdown_thread over the shutdown list. The
--     clock and the results of kill() are inputs. The signals that were sent, and the descriptors
--     that were closed, are kept in the store. Shutdown/Thread has the thread's loop and its wait on
--     the condition variable as steps between those of the other threads (qgis_shutdown_add_process,
--     qgis_shutdown_notify_changes, qgis_shutdown_wait_empty, and the changes of the tables).
--   * process_manager.c -- Manager: process_manager_start_new_process_wait, given the tables at the join
--     of its threads, process_manager_restart_process, process_manager_process_died and
--     qgis_shutdown_add_process. process_manager_cleanup_process is in Shutdown. Manager/Spawn has
--     process_manager_thread_function_start_new_child, and Manager/Child
--     process_manager_thread_function_init_new_child; what the calls on sockets and on the process
--     return is an input.
--   * project_manager.c and qgis_inotify.c -- Projects: project_manager_shutdown_project and
--     qgis_inotify_delete_watch, with the result of inotify_rm_watch() as an input. Projects/Start has
--     the start and restart of projects, qgis_inotify_watch_file, the events of one read() of
--     inotify_thread_watch, and project_manager_manage_project_changes. What stat() and inotify return
--     is the parameter Files; a detached start of processes is an entry of the result's starts.
--   * qgis_config.c -- Config: the getters (Config, Config/Values), config_has_changed with
--     config_test_for_section_change, and config_load. What the iniparser library answers for a
--     loaded file is the parameter Dictionary. Config/Includes has iniparser_load_with_include, with the
--     libraries and the calls on files as the parameter Library.
--   * connection_manager.c and fcgi_data.c -- Connection: thread_handle_connection in three parts. The
--     module itself has the list of data blocks and the reading of the request with the choice of its
--     project, Connection/Attempt the attempts to give the request to a process, Connection/Relay the
--     loop between the two sockets. The results of read(), write(), poll(), connect() and of the
--     regular expressions are inputs; the bytes that went each way are kept in the loop's state.
--   * qgis-schedulerd.c -- Daemon: signalaction, and the loop of main() with its reactions to signals and
--     connections; Daemon/Startup has main() up to its loop, with check_ressource_limits. What poll()
--     and the calls return, and what other threads have made of the tables before a round, is an
--     input.
--   * stringext.c -- Buffers: anstrcat, strnbcat, arraycat and membcat. A block of memory is the list of
--     its cells, each with a value or not yet written.
--   * statistic.c -- Statistic: the counters, and the numbers that statistic_printlog prints.
--
-- The parts work together on the database: the process manager adds rows and moves them from the init
-- list to the active list, a connection claims an idle process and makes it busy, and the shutdown
-- thread ends the processes of the shutdown list. A changed configuration, or a changed file that a
-- project names, makes the project manager move projects' processes and ask for new ones. A connection
-- reads its request with a session of Fcgi, chooses the project by the configuration, and keeps what
-- it has read in the list of data blocks until a process has it.
--
-- Prelude has the shared names and lemmas (lists over the native numbers, integers, tests), Outcome
-- the faults: assert() and qexit() end the program, an access outside of an object or an overflow of
-- int is undefined behaviour. Examples has the theorems at concrete inputs.
--
-- Loops run on fuel: fcgi_param_list_parse on the length of its content and fcgi_session_parse on the
-- number of bytes left. Each round takes a byte at least, so that many rounds are enough. Running out
-- would be the fault out_of_fuel, which no C program has. A connection has three attempts with processes
-- and each of them five with connect(), and strnbcat doubles its buffer ten times at most, as the
-- source bounds these loops. The search for a socket's name has as many rounds as unsigned int has
-- numbers, and ends before; the copy of a configuration file has one more than the file has bytes. The
-- other loops go along a list: the reads of a request, the results of poll(), the events of inotify, the
-- projects, the rounds of the main loop. Such a list is what happened up to some moment.
--
-- Not modelled: what main() releases at its end, the removal of the pid file, the child's side of
-- fork(), the layout of inotify's events in bytes, the sizes and modes of sockets beyond their
-- success, the measurement of a connection's time, logging, and the glue to SQLite and pthreads.
-- Statements of SQLite succeed, except insertions that a UNIQUE column refuses; allocations
-- succeed. The steps of the threads let any thread set the state of a process at any time; where a
-- theorem holds only for runs without some of that, it says so.
pub mod Prelude
pub mod Outcome
pub mod Buffers
pub mod Timer
pub mod Statistic
pub mod Config
pub mod Fcgi
pub mod Database
pub mod Shutdown
pub mod Manager
pub mod Projects
pub mod Connection
pub mod Daemon
pub mod Examples
