-- ===== src/Lib.antt =====
-- ComNetsEmu, as far as its own logic can be stated without a network.
--
-- The library has four parts, for four parts of the repository.
--
-- Manager is for comnetsemu/net.py: `APPContainerManager` and the REST handler
-- `APPContainerManagerRequestHandler`, with `APPContainer` of comnetsemu/node.py. The manager holds a queue
-- of containers, a map from names to containers and the list of names in the net; its state is the record
-- `Manager` of Manager/State, and each method is an action on it, which ends with a value, an exception or
-- in a loop that still waits (`Result`). Manager/Data has the values, Manager/Docker the calls of the
-- Docker client as a record of functions on a world, which are parameters everywhere. Manager/Create is
-- `_createContainer`, Manager/Container the other methods that call Docker, Manager/Rest the handler with
-- `do_GET`, `do_POST` and `do_DELETE`, where the body of a POST is a typed record: bodies with values of other types are
-- left out. The argument dicts of callers are kept by reference, since the code
-- changes them. A method that holds the lock is one action; a DELETE takes the lock twice, so that
-- another action may come between. Manager/Synced has the invariant of the three registers.
--
-- Coding is for app/network_coding_for_transport: rawsock_helpers.py and common.py are Coding/Bytes and
-- Coding/Header, and the loops `run_encoder`, `run_recoder` and `run_decoder` are the modules of these
-- names, one frame of the loop being one step. A buffer is a list of numbers; a value or an index that
-- `struct` refuses is `none`, as is a failed assertion, and ends the program. The kodo coders are
-- parameters (Coding/Kodo). What is sent is kept in order in the field `sent`.
--
-- Routing is for app/machine_learning_for_routing/controller: `iterative_levenshtein` of functions.py
-- (Routing/Levenshtein), its functions on paths, ports and measurements (Routing/Paths), the ids of flows
-- (Routing/FlowId), the changes of `get_commands_rerouting` (Routing/Reroute), to which the walk of `astar`
-- is an argument since its search uses square roots, and `retrieve_operations` (Routing/Operations).
--
-- Learning is for learning_module.py beside it: states, actions and transitions (Learning/Spaces), the Q
-- table and its updates (Learning/Tables), the exploration modes (Learning/Choice), rewards
-- (Learning/Rewards), `merging_qtable` (Learning/Merging), `update_Q_table` (Learning/Building),
-- `get_paths` (Learning/Search) and the loop of `learning_module` (Learning/Loop, Learning/Turn), where one
-- message of the controller is one step. Flow ids are numbers in the order of their strings, the sorted
-- dict stands for its JSON string, and floats are a parameter, the record `Reals`, with `-math.inf` beside
-- them and a weight of the softmax choice possibly infinite or no number. Random draws are a parameter (`Random`),
-- with the ValueError of `np.random.choice`. Where the code compares objects (`nxt is dst`), the comparison is a
-- parameter. An exception is a value (`Outcome`).
--
-- Bounds and fuel. Natural numbers stand for Python's unbounded ones; differences that can be negative are
-- integers. The loops that wait for Docker make at most as many rounds as their `fuel`, and end with
-- `waiting` when Docker has not answered by then. The decoder's loop has as many rounds as it has open
-- symbols, which is enough since its position grows. `get_paths` has a bound on its rounds from the
-- switches that are not on a path and the links of each. All other loops are over lists or counters.
--
-- Not modelled: Mininet and the DockerHost node, the thread of the HTTP server, sockets, logging and
-- sleeping, floating point (a CPU percentage is a fraction), the remote controller, the learning loop for
-- direct changes, and the demonstration applications.
pub mod Prelude
pub mod Manager
pub mod Coding
pub mod Routing
pub mod Learning
