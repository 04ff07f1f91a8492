-- ===== src/Lib.antt =====
-- A model of myrun, a container runtime: the parts that decide, with what they rely on of the
-- kernel and the file system as explicit arguments.
--
-- The parts, their files, and the code that they follow:
--   Error             src/error.rs: the error type, exit codes, errno names, display
--   Fault             src/fault.rs: fault injection by MYRUN_FAULT
--   Rollback          src/rollback.rs: the undo stack of a setup (`Rollback::push`, `commit`,
--                     `unwind`, `Drop`), over any world
--   Process           src/sys/process.rs and the status macros of src/sys/ffi.rs: `ExitStatus`,
--                     `wait_pid` and `reap_all` (Wait), `parse_signal` (Signal),
--                     `parse_proc_stat` and `process_alive` (Stat)
--   Ipc               src/runtime/ipc.rs: the frames of the channel between supervisor and init
--   Json              src/util/json.rs: JSON values (Json), their text (Json.Print) and the parser
--                     (Json.Parse)
--   Floats            the operations on 64-bit floats that the program uses, a parameter
--   Netlink.Address   src/sys/netlink.rs: IPv4 addresses and ranges as text
--   Netlink.Attributes  src/sys/netlink.rs: the attributes of a message (`MsgBuilder::attr`,
--                     `parse_attrs`)
--   Util              src/util/mod.rs: ids and hexadecimal text, sizes and durations (Size), dates
--                     (Time)
--   Config            src/config.rs: the configuration; Config.Ports and Config.Mounts have the parsing
--                     of `--publish` and `--mount`, Config.Codec and Config.Document the JSON form,
--                     Config.Validate `finalize_and_validate`
--   Ipam              src/runtime/ipam.rs: the address allocator over its lease file, which holds
--                     Json and reads addresses
--   Seccomp           src/sys/seccomp.rs: the system call filter; Seccomp.Kernel has the kernel's
--                     machine for it, a parameter with its documented laws
--   Caps              src/sys/caps.rs: capability names and masks
--   Cgroup            src/runtime/cgroup.rs: the limits that `apply` writes
--   Rules             src/runtime/nat.rs: the iptables rules of a container, added once, split and
--                     found again, those of a bridge (Bridge) and a published port (Chains), with their
--                     independent description (Wanted); the command's effect is a parameter
--   State, Store      src/runtime/state.rs: a container's state machine, the state file (State.Record,
--                     State.Network, State.Stored) and the store of all containers; State reads exit statuses
--                     and liveness from Process, and holds a configuration; Store keeps what each file reads
--                     as, which Store.Create ties to the text that State.Stored writes
--   Prelude, Text     shared: numbers, lists, bits; texts and decimal numbers of the standard library
--   Tests             the theorems at concrete inputs
--
-- How the code is rendered. A `&mut self` method takes the state and returns the new one; a fallible
-- function returns `Result`. A text is the list of its code points, an error message the parts of
-- its format template. An `i32` or `i64` is its bit pattern, with the wrap-around of casts written
-- out. What a system call answers is an argument: a list of answers for the loops that retry
-- (`Event`, `Reply`), one answer elsewhere. The clock's reading is an argument too.
--
-- Loops. `write_all`, `read_exact` and `wait_pid` recurse on the kernel's answers and return `none`
-- where these run out, as `reap_all` then does. `reap_all` has one round for each answer and one more, the search of `allocate`
-- one for each address of the range, `parse_attrs` one for each byte, of which every round takes four
-- at least. The JSON parser spends one unit of fuel for each value and each round of an array or object,
-- and `parse` gives it twice the length of the text and two; a string gets one unit for each character
-- and one more.
--
-- Not modelled: clone and exec, namespaces, mounts, the making of cgroups, netlink requests and
-- the iptables command, which are system calls and external commands; logging; the TOML text and the command
-- line. The file lock, which every reader and writer of a file holds throughout, appears as the
-- sequence of the operations.
pub mod Prelude
pub mod Text
pub mod Error
pub mod Floats
pub mod Fault
pub mod Rollback
pub mod Process
pub mod Ipc
pub mod Json
pub mod Netlink
pub mod Ipam
pub mod Seccomp
pub mod Caps
pub mod Config
pub mod Cgroup
pub mod Rules
pub mod State
pub mod Store
pub mod Util
pub mod Tests
