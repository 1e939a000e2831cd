-- ===== src/Lib.antt =====
-- Simple Task Queue: a server that keeps queues of tasks in SQLite databases, runs the tasks of a
-- started queue one after the other, and is driven over gRPC.
--
-- The parts, from the inside out, and the files that model them:
--   model/proc/task.*          Task        what a task is
--   model/errmsg.*             ErrMsg      error codes, and the gRPC status of each
--   model/dao/sqlitequeue.*    Args        splitString and concatString: the argument list as one text
--                              Queue       a queue: its methods (Queue), the statements on its tables
--                                          (Queue/Tables), opening a database (Queue/Schema), and the
--                                          thread of the queue (Queue/MainLoop)
--   model/proc/iproc.hpp       Process     the interface through which a queue runs a process
--   model/proc/linuxproc.*     LinuxProc   the implementation of that interface on Linux
--   model/proc/winproc.*       WinProc     and on Windows, with the handles that are open
--                                          (WinProc/Handles)
--   model/dao/sqlitequeuelist.*  QueueList the queues by name, and the scan of the directory
--   controller/grpcserver      Server      the handlers of the services Queue (Server/QueueImpl) and
--                                          QueueList (Server/QueueListImpl)
--   model/dao/grpcqueue*.*, grpcconnect.*  Client  a queue, the list of queues and the connection of a
--                                          client (Client/GrpcQueue, Client/GrpcQueueList,
--                                          Client/Connect), and what gRPC is taken to do
--                                          (Client/Carries)
--   controller/cli             Cli         the terminal client: a line as arguments (Cli/Args), the
--                                          commands in a queue (Cli/Queue), outside of one
--                                          (Cli/QueueList) and outside of both (Cli/Main); its
--                                          start, with climain.cpp (Cli/Start)
--   model/utils.cpp, model/dao/dirutils.cpp  Setup  verifyIP (Setup/Address, over Setup/Regex), and the
--                                          checks of directories and files (Setup/Dirs)
--   model/dao/sqliteconnect.*, controller/global  Setup/Database  the directory of the databases
--   controller/grpcserver/config.*         Setup/Config    the configuration of the server
--   controller/grpcserver/init.cpp, server.*, accessimpl.*, servermain.cpp  Setup/Server  its life
-- A handler looks a queue up in the list, calls one method of it and turns the code into a status. A
-- method runs statements on the queue's database. The thread of a started queue reads the first pending
-- task, runs it through the process interface, waits, and moves it to `done`.
--
-- State is passed explicitly (Exec): an action takes the state and gives a result with the new state.
-- A result is a value, an error code, or `hang`, which only a loop gives that used up its rounds. The
-- early returns and `goto exit` of the source are errors of the action; what was written before stays.
-- Names are those of the source in other letters: listIDInTable is list_id_in_table, a handler such as
-- AddTask is serve_add_task. `blank` and `process` stand for the objects that createQueue allocates.
--
-- SQLite is a parameter (Sqlite), and so is the process (Process). What the queue relies on in SQLite is
-- the record Queue/Contract: what each statement that the program sends does to the contents of the
-- three tables, and which rows it gives. A failure of the library for a reason of its own is the
-- proposition `Fault`, so that one theorem covers a library that may fail at each call and, with `Fault`
-- false, a reliable one. Rows of `SELECT *` are taken to come in the order of insertion, those of
-- `SELECT ID` in any order. Texts are taken to hold no zero byte, at which the source would cut them.
-- Queue/Sample is a library in memory that keeps the contract.
--
-- The system calls of a Linux process are a parameter in the same way (Os), and what they should do is
-- the record LinuxProc/Runs; the size of its buffer of outputs is an argument. The Windows API is the
-- parameter WinOs.
--
-- Queue/Spec is what a queue promises without SQLite: two lists of tasks and a number.
--
-- Integers: an ID or an exit code is an integer that is narrowed to 32 bits where SQLite or a gRPC
-- message takes it. Bytes are numbers, a std::string is the list of its bytes.
--
-- Rounds: the loop of splitString has one round more than there are bytes, which is enough for every
-- text. A loop over rows has the number of rounds that the library's record names; the theorems ask for
-- more rounds than there are rows, and then it ends. The wait for a process has a number of looks, and
-- mainLoop a number of rounds, that are arguments: two more than the pending tasks are enough where the
-- tasks stop.
--
-- Each method is one step: the mutexes of the source make it so, except that the two atomic flags may
-- change between the statements of mainLoop. Queue/Locks has the mutexes themselves: any number of
-- threads, each with the mutexes that its call takes and gives back in order, and no more of the call.
-- Memory is taken to be always there. A queue whose init failed is thrown away by its caller, so its
-- null token is not modelled. The order of the names in the map of queues is some order. Each queue has
-- the contents of its database for itself. Two queues of one server are on the same file only where a
-- queue was renamed, or taken out of the map while a client's call holds it, and a queue of the old name
-- was made then; in the source they see one another's tasks, and here they do not. What is said of a
-- queue that is not touched is said of the entry in the map.
--
-- Over gRPC a call may fail at each time, with the handler run or not; `Fault` is false for a channel
-- that never fails. The terminal client works on the interfaces IQueue and IQueueList, over any state
-- of the world behind them; Cli/Remote puts the gRPC client there. Its input is the list of the lines
-- that are typed, and the model stops where none is left, while the source waits for the next one, for
-- ever at the end of the input. A round of its loops takes at least one line, so that one round more than
-- there are lines is enough. What cxxopts makes of a command is a parameter, one function for each set of options.
--
-- The file system is a record of what std::filesystem answers (Setup/Dirs), with an error as a false
-- answer; what cxxopts and yaml-cpp read for the server is a record too (Setup/Config).
--
-- Not modelled: the console, the test for the super user, and the handlers of signals beside their call
-- of stop; what is only written to the log or, as help or version, to the terminal. The building and the
-- threads of the gRPC server are the library's.
mod Common
pub mod Args
pub mod Cli
pub mod Client
pub mod Task
pub mod ErrMsg
pub mod Exec
pub mod Sqlite
pub mod Process
pub mod LinuxProc
pub mod Queue
pub mod QueueList
pub mod Server
pub mod Setup
pub mod WinProc
