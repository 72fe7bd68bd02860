-- ===== src/Lib.antt =====
-- sqlbus: a server that takes SQL requests from a redis queue, runs them through a database driver
-- that it loads at run time, and answers on a redis queue. A client library puts the requests in
-- the queue and reads the answers. This library models the server of the directory src of the
-- repository and the client library of the directory client.
--
-- Parts. The configuration loader (src/config_loader.c) reads an ini file into sections of pairs;
-- every other part queries it. The server (src/sqlbus.c) connects to redis and to the database,
-- then loops: it receives a request string (src/redisop.c), parses it into a handle
-- (src/request.c), executes its statements through the driver manager (src/driver_manager.c),
-- which calls the functions of a shared object (src/driver_loader.c), answers if the request is
-- synchronous, and releases what the request holds. A lost database connection puts the request
-- back in the queue.
--
-- Files. Prelude: names of the libraries, tests on numbers, lists and strings measured by native
-- numbers, the integers. Trim: rtrim and ltrim of src/util.c, on buffers. Config: config_t;
-- Config/Lines the functions on one line, Config/Parse the loop and load_config, Config/Lookup the
-- queries. Server/Platform: what the server calls and does not implement. Server/State: pointers,
-- the handle, the connection, the statement and the cycle (src/sqlbus.h, src/driver_manager.h,
-- src/driver_loader.h). Server/Exec: actions on a state, which end, fault or wait. Server/Request:
-- sqlbus_parse_request and sqlbus_free_request. Server/Redis: src/redisop.c. Server/Driver:
-- load_driver and unload_driver. Server/Catalog: how the path of the driver is expanded.
-- Server/Database: the environment, with Server/Database/Connect for connections and
-- Server/Database/Execute for statements. Server/Session: the connections of src/sqlbus.c and its
-- loops that wait for one. Server/Response: sqlbus_generate_response and sqlbus_expire_key.
-- Server/Service: sqlbus_execute_statement and sqlbus_main_entry. The files below these, such as
-- Server/Request/Cycle, hold the theorems. Client: the state of a client (client/hisqlbus.h);
-- Client/Json trees and the library that parses and prints them; Client/Marshall and
-- Client/Unmarshall the two conversions of client/util.c; Client/Reader the readers,
-- Client/Operations creating, connecting, sending and receiving (client/hisqlbus.c). Log: the
-- parsers of src/log.c for the settings of the log; Log/Line the line that log_write builds,
-- Log/Write log_write itself. Log/Files the file of the log, Log/Rotation the backups and the
-- events of src/log_watcher.c. Disk: the calls on files, with what is relied on of a directory
-- (Filing). Dir: make_dir of src/util.c. Env: the set-up in src/sqlbus.c, from the command line to
-- the server, in Env/Arguments, Env/Settings, Env/Logging, Env/PidFile and Env/Init; Env/Running
-- is the check for a running server, with readpid and match_prog_by_pid of src/util.c. Tests has
-- runs at concrete inputs, in the environment of Tests/Demo.
--
-- State. sqlbus_cycle_t is the record Cycle: the handle, the three database handles as pointers,
-- and the world, in which everything outside of the program changes. A pointer is live, NULL or
-- bad: never written, or freed and not reset. Blocks that no pointer of the state leads to, such
-- as a tree that is never freed, are not in the state. Freeing, testing or following a bad
-- pointer, following NULL, and writing past an array where the model keeps its size are faults.
-- Memory from malloc is not cleared, as in the default build, where xMalloc is malloc. The
-- parameters that the configuration and the command line fill are the record Settings.
--
-- Fuel and bounds. parse_conf_file runs on one round more than the file has bytes, which is
-- enough. The endless loops of the server take a number of rounds, and an action that has none
-- left waits. Numbers of rows and fields are natural numbers; the driver sets them. The conversion
-- of a double to an int, which C leaves open outside the range of int, belongs to what cJSON shows
-- of an item.
--
-- What stands for code outside of the sources: redis through hiredis, cJSON, dlopen, the driver,
-- the allocator, files, the environment and signals are fields of the record Platform. What the
-- theorems rely on of them is in the records Redis (LPUSH and BRPOP on one list), Appending (RPUSH
-- and EXPIRE), Result (a driver that holds the names and rows of a result), Printing (a printer
-- that prints), Quiet (what reading a result leaves alone), and Reading and System (cJSON, the
-- clock, the uuid and the process, for the client).
--
-- Client and server meet in the JSON texts: what mcc_send puts in the queue is what
-- sqlbus_parse_request takes, and the response that sqlbus_generate_response prints is what
-- mcc_recv reads. For that, cJSON is a Codec, which parses and prints trees of the type Json, and
-- the view that the server has of an item is that of its tree (Reading).
--
-- Not modelled: in the client, sqlbusFinalize, the texts of errors and the example program; the
-- oracle driver, the messages to the terminal, the loop of the watcher, signals, the process
-- title, the memory debugger, and unload_config.
mod Prelude
pub mod Trim
pub mod Disk
pub mod Dir
pub mod Config
pub mod Server
pub mod Client
pub mod Log
pub mod Env
mod Tests
