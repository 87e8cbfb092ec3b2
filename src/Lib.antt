-- ===== src/Lib.antt =====
-- A verification of monitor_node, which tests the links between the nodes of a network: on every
-- node the interfaces in mode `test` send packages in rounds of ten seconds, those in mode `listen`
-- count them, and the results travel from node to node to the one with the center interface.
--
-- The parts and their files:
--   src/base/info_manager.c, .h   InfoManager: the table of interfaces (Types, Interfaces), their
--     statuses (Status), the table of results (Records), results as JSON (Json), batches of results
--     to sync (Newest), the merge of a batch at the receiver (Sync), the checks of the configured
--     function names (Legal), the start (Start), the results file (File), the configuration of the
--     interfaces as JSON, written and read (Configuration). The globals are the record `Manager`.
--   src/status_chooser_lib.c      StatusChooser: the status of an interface in a round.
--   src/msg_generator_lib.c       MsgGenerator: the message that a tester sends in a round, and that
--     its listener expects.
--   src/firmware.c                Firmware: the fixed-size frame (Fill), `send_message` (Send),
--     `receive_message` and the thread `deal_async` (Receive), `set_status` (Status), and a message
--     from end to end over a serial line (Serial).
--   src/one_interface_operator.c  OneInterface: its globals (State), the choice of what to do with
--     the results and the status of a round (Choose), `deal_with_mnt` (Deal), the round of a tester
--     (Round) and of a listener (Listen), and the threads of a node as steps on its globals (System).
--   src/base/rs485_recv_send.c    Rs485: opening and setting a port (Port), the loops that write and
--     read (Send, Receive).
--   src/base/eth_recv_send_by_mac_addr.c, eth_recv_send_xy.c   EthMac: the MAC addresses (Address), the
--     packets (Packet), and those over an open socket (Xy).
--   src/base/eth_recv_send_by_ip_addr.c   EthIp: the packets over UDP.
--   src/base/can_fpu_recv_send.c, can_gpu_recv_send.c   Can: the drivers of the two kinds of CAN
--     interfaces (Fpu, Gpu).
--   src/initializer_closer_lib.c  Initializer: what its functions share (Common), the functions of
--     each kind of interface (Eth, Serial, Can), and the choice among them (Transfer). Serial/Refines
--     has the table of open devices that the entries of the interfaces stand for, Serial/Runs the
--     sequences of openings and closings.
--   src/interface_group_operator.c   InterfaceGroup: the start of the threads (Start), the supervisor of
--     the child process (Supervisor), the split of a line of input (Input), the checks of parameters
--     and the commands of `main` (Params).
-- The group is started in a child process by the supervisor; it opens the devices by the
-- initializers and starts a thread for each interface, which tests or listens in rounds and hands a
-- message that arrives to a thread of its own. The drivers are called by `send_message` and
-- `receive_message`, for which they are a parameter; Firmware/Serial puts the two together.
-- Prelude has the shared names, the C library's functions on strings and buffers, and integers.
-- Tests has runs on a concrete node.
--
-- How C is modelled: a function of the source that reads or writes globals takes and returns the
-- record of them; a fault (an index outside of an array, a null pointer, an overflow) is `none`.
-- A string is the list of its bytes before the terminating zero, a buffer the list of all its bytes,
-- `int` is ℤ with `to_i32` where a value is cut to 32 bits. Loops are recursion on the array.
-- Mutexes are left out: each call is one step. The output of `printf` is left out.
-- Parameters: the base functions that put packets on the wire (`Wire`), cJSON (`Cjson` for the configuration) and, with
-- it, the calendar functions (`Platform`), the system calls under the drivers (`Tty`, `Host`, `Calls`, `XyCalls`,
-- `CanCalls`, `Turn`, `UdpCalls`), the answers of the receiving functions (`Line`), the answer of
-- the shell about a link (`is_up`), the results file (`Disk`), what the heap holds at the start
-- (`Boot`), the clock. `strdup` and `realloc` find memory; the calls of `malloc` for the arrays of
-- a listener may fail (`Memory`). The waits are left out.
-- A loop on the answers of system calls (the writes and reads of a serial line, the calls of `bind`,
-- the supervisor, the lines of input) is recursion on the list of these answers: when they are used
-- up the loop still goes on, which the result says. For `send_packet_rs485` as many answers as bytes
-- are enough when each call takes a byte. No loop runs on fuel but the printing of decimals, which is
-- given a step for each unit, and the six turns of the loop over a MAC address.
--
-- Not modelled: the SDK of the CAN card, which is a copy of another project's, the bytes of a socket address, the
-- GPIO functions of the RS-485 driver, which are not called, and `restart_op`; the endless loops around
-- the rounds; the commands of `main` beyond their checks; the reading of the overall
-- topologies in XML and JSON;
-- printing.
pub mod Prelude
pub mod InfoManager
pub mod StatusChooser
pub mod MsgGenerator
pub mod Firmware
pub mod OneInterface
pub mod Rs485
pub mod Initializer
pub mod InterfaceGroup
pub mod EthMac
pub mod EthIp
pub mod Can
pub mod Tests
