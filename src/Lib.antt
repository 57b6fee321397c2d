-- ===== src/Lib.antt =====
-- PekarDrive: a master keeps a table of workers, and clients store files on the workers through it.
--
-- How the parts interact. A client sends the master one packet for each request (client/client.c,
-- client/arg_parser.c). The master (src/master.c) decodes it (lib/PP/packet.c) and asks its workers
-- (src/worker_admin.c), whose addresses it keeps in a table (src/server_table.c). A worker
-- (src/server/server.c) runs the operation on its files (src/server/file_exec.c, src/fs/fs.c) and answers.
-- Workers enter the table by a REGISTER packet (src/server/boot.c), and are pinged in rounds
-- (manager_thread of src/worker_admin.c). A second protocol, of transmissions in chunks with padding
-- (lib/PP/transmission.c, lib/PP/pp.c), is not used by these programs.
--
-- Files:
--   Common        lists, tests and integers over the native numbers
--   Result        results: a value, or a fault where C has undefined behaviour or waits for ever
--   Memory        blocks, what lies behind them, little-endian words, strings and decimals in memory
--   Comm          include/comm.h and lib/comm.c
--   Packet        include/PP/packet.h and lib/PP/packet.c
--   ServerTable   src/server_table.h and src/server_table.c
--   WorkerAdmin   src/worker_admin.c and src/balance.c
--   Master        src/master.c
--   Client        src/client/arg_parser.c, src/client/client.c and src/client/settings.c
--   Fs            src/fs/fs.c
--   FileExec      src/server/file_exec.c
--   Server        src/server/server.c
--   Interface     lib/interface.c
--   Transmission  include/PP/transmission.h, lib/PP/transmission.c, lib/PP/transmission_serializer.c
--   Pp            include/PP/pp.h and lib/PP/pp.c
--   Logger        src/util/logger.c
--   Boot          src/server/argument.c and src/server/boot.c
-- Operations have the names of the C functions; register_worker of the boot is boot_register
-- and ls of the interface list_files. A loop of a function is an operation of its own, named
-- after what it does, and the branches of a long function too; the comment at each says whose they are.
-- Modules named Examples hold runs at concrete inputs.
--
-- State. Globals are records or arguments that are passed on: `Table` for server_table, server_count and
-- the mutex, `Master` for the table and the next worker id, a disk for the files of a worker. A pointer
-- is what can be read from it on: the rest of its block and the bytes behind the block, which the record
-- `Memory` gives together with the contents that malloc leaves in a block. An access that leaves these
-- bytes is a fault, and so is one through NULL and the wait for a mutex that the same thread holds.
-- Blocks are not freed in the model.
-- A sprintf into one of the strings that it prints is a fault too. Of what the master sends without
-- reading an answer, worker_delete gives the address, the port and the bytes.
--
-- Parameters: `Memory`, `Sockets` for the socket calls, `Network` for what a worker answers to the bytes
-- that it is sent, `System` for what the files of a system permit and for its shell, the output
-- of `hostname`, what each `read` gives where a function reads in a loop, the clock, and the tokens.
--
-- Bounds. Fields of packets have their widths in C, and sums of unsigned numbers wrap. The loop of
-- for_each_server runs on fuel of 2^16 rounds; server_count is below 2^16, so this is enough. All other
-- loops are recursions on a count or a list.
-- The loop of boot_register takes its fuel as an argument.
--
-- Threads. The manager and the main thread of the master are a step relation (Master/Threads): the manager
-- takes the mutex, pings one worker at a time and gives the mutex back, and a turn of the main loop is one
-- step, which is not taken where it would wait for the mutex. A thread that waits for a mutex that it holds
-- itself never goes on. With THREADING the worker hands its connections to threads, and how they take them
-- is modelled (Server/Threads). Threads in the file operations take a mutex (FileExec/Mutex), where an
-- operation sees the files when it takes it and changes them when it gives it back. All other runs of the
-- worker handle one connection after the other.
--
-- Not modelled: frees, and the log lines of the other parts.
mod Common
pub mod Result
pub mod Memory
pub mod Comm
pub mod Packet
pub mod ServerTable
pub mod WorkerAdmin
pub mod Master
pub mod Client
pub mod Fs
pub mod FileExec
pub mod Server
pub mod Boot
pub mod Interface
pub mod Transmission
pub mod Pp
pub mod Logger
