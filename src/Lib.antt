-- ===== src/Lib.antt =====
-- A model of lxcHttpServer, a small HTTP server in C++: one thread waits on an epoll set and hands
-- the readable descriptors to a pool of threads; each thread runs a handler that parses one request
-- and answers it; connections that are kept alive stand in a timer; all parts write to a logger with
-- a back end of its own.
--
-- The files, by the part of the program that they model (paths from the repository's root):
--
-- - Common: names that all share. Common/Effects has the outcome of a call: a value, a C++ exception
--   (include/Error.h for `SocketClosed`), undefined behaviour by its kind, a call of the kernel that
--   never returns, and a loop bound that was too small, which the theorems exclude.
-- - Http: include/HttpData.h and src/HttpData.cpp. `HttpData` is the class; the socket is the list of
--   what the coming calls of `recv` return. Http/Socket is `readRawDataFromSocket`, Http/Line
--   `parseOneLine`, Http/Strings `stringSplit`, `getHeaderLineName` and `numeralContentLength` with the
--   library functions that they call, Http/Params the parsing of parameters, Http/Start
--   `parseStartLine`, Http/Header `parseHeader`, Http/Body `parseBodyParamData`, Http/Parse `parseData`
--   and the accessors. The modules below them hold the theorems.
-- - Timer: include/Timer.h and src/Timer.cpp, the list of nodes, the hash map of iterators and the four
--   methods `addfd`, `deleteFd`, `forbidenFd` and `deleteExpiredFd`, each one step under the mutex.
--   Timer/Calls puts the kernel's epoll set behind the timer's calls, whose results the program does not
--   read: the kernel may refuse to add a descriptor. Timer/Kernel is such a set.
-- - AsyncLoger: include/AsyncLoger.h and src/AsyncLoger.cpp, the buffers, `logInfo` and the rounds of
--   `threadFun`; AsyncLoger/Steps has the same as steps, a collection under the mutex and the write of
--   one buffer, between which lines are logged. AsyncLoger/Life is the thread from the constructor to the
--   destructor, AsyncLoger/Singleton `getInstance`, AsyncLoger/Clock the time and the file's name.
-- - ThreadPool: include/ThreadPool.h and src/ThreadPool.cpp, one step for each statement of `worker`,
--   with the mutex and the condition variable of include/Mutex.h.
-- - Responser: include/Responser.h, src/Responser.cpp and src/Pages.cpp, the answers, as the bytes that
--   the peer is sent. Responser/Cgi is `executeCGI`, Responser/Descriptors the
--   descriptors that it opens and closes.
-- - Server: the handler `httpserver` of src/httpserver.cpp, which puts the parser, the answers and the
--   timer together.
-- - Mutex: include/Mutex.h, the deadline of `ConditionTimeWait::waitForTime`; Mutex/Guard is `MutexLock`
--   and `MutexLockGuard`, Mutex/Condition `Condition`.
-- - MainLoop: `main` and `signalHandler` of src/httpserver.cpp. A move of the system is a report of
--   `epoll_wait`, a statement of the main thread, a statement of a thread of the pool, a call of the
--   handler, a wakeup or an alarm, in any order; the timer, the pool, the pipe and the alarm are the
--   state. MainLoop/Watched says what `epoll_wait` may report. MainLoop/Start is what stands in front of the loop: as it is written it always throws, so
--   the theorems on the loop speak of the objects that `main` makes behind the tests.
-- - TaskPool: thread_pool/, a second pool with a manager, which the server does not use. TaskPool has
--   the queue and the workers, TaskPool/Actions the manager, `addTask`, the destructor and the
--   schedules of all of them, in which steps are made one after the other or two at once;
--   TaskPool/Races has what each step reads and writes, and with which mutex.
-- - Utils: src/utils.cpp, the loading of the index page and the greeting; Utils/Prints has two of the
--   functions that print; Utils/Epoll is what the
--   functions on the epoll set ask of the kernel, with the kernel's set as an interface.
--
-- Parameters of the model are the results of `recv`, `send`, `read` and `write`, the file system, the
-- CGI programs, the kernel's `pipe` and its epoll set, the time and what `strftime` writes for it, and
-- what uninitialised memory held.
--
-- Bounds. A parser's loop has as fuel the number of bytes that are buffered or to come, and one more:
-- each of its rounds reads a byte. The loops on strings have the length of the string and one more. The
-- loop over a binary file has the length of the file and one more, ten digits print a 32-bit number.
-- The loop that loads the index page has the length of the file and two more. `int` is checked where a
-- number of the program can leave it: the content length, and `%d`.
--
-- A call of a mutex that is taken blocks: a schedule that makes it comes to no state.
--
-- Not modelled: the scheduling of the kernel (any thread may run next, and MainLoop's `epoll_wait`
-- reports what its moves say), the log lines and prints of the timer, the process of a CGI program, and
-- the socket options and the names of peers of src/utils.cpp.
pub mod Common
pub mod Http
pub mod Timer
pub mod AsyncLoger
pub mod ThreadPool
pub mod Responser
pub mod Server
pub mod Mutex
pub mod MainLoop
pub mod TaskPool
pub mod Utils
