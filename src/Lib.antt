-- ===== src/Lib.antt =====
-- A verification of megastructure: distributed simulations that are run by components in host programs. A
-- master process coordinates slaves, one for each machine; a slave coordinates the hosts of its machine;
-- a component runs the program of one host and lets the other hosts read and write its state between two
-- cycles. The parts talk by the messages of src/protocol/megastructure.proto.
--
-- Files:
--   Common: shared names, Boolean tests, lists over native numbers, and Result, in which `throws` stands for
--     THROW_RTE and for a failed VERIFY_RTE.
--   Protocol: the messages of src/protocol/megastructure.proto (Types) and the makers and readers of
--     api/protocol/protocol_helpers.hpp (Helpers). A oneof is a data type, bytes are lists of numbers.
--   Lock: the simulation lock. State is class SimulationLock of api/megastructure/component.hpp; Component
--     is its owner, class Component of src/component/component.cpp; Manager and Requests are the handlers
--     of EGRequestManagerActivity in src/component/activities.cpp; System has Component::runCycle and the
--     queue thread as steps (Step) of one state, and the states that they reach (Reach). Counts, Phases,
--     Starts, Outcomes, Entries, Openings and Service hold the lemmas, Invariant the invariant of the steps;
--     Exclusion, Replies, Repeats and Overlaps the results.
--   Address: src/core/networkAddressTable.cpp. Tree is the part of the program database that it reads,
--     ClientIds its maps, Tables the recursions and the four tables; Build, Owners and Routes hold the
--     lemmas, Agreement and Build the results.
--   Queue: src/core/queue.cpp with api/megastructure/activity.hpp. Activities has the handlers, and Runs,
--     Completion and Delivery what holds of their runs.
--   Master: src/master. Clients is api/megastructure/clientMap.hpp, State is class Master, Route the routing
--     activity of src/master/activities.cpp, and Events what it does with events. Enroll is the enrolment
--     with its tests of clients, Connections the test of all clients, Gather the load of programs and
--     configurations; Contest, Dropping, Answers and Asking hold their results, and Directory that of Clients.
--   Slave: src/slave. Hosts is hostMap.hpp and hostMap.cpp, Remap the constructor of HostMap that moves hosts
--     to a new program, with its lemmas in Fresh and its results in Partition and Processes; Route is
--     the routing activity of activitiesEG.cpp. State is class Slave as its other activities see it, Shared the
--     shared buffers; Enrolment, Load, Program and Config are the activities of activitiesHost.cpp, Commands
--     those of activitiesMaster.cpp; Loads, Loading and Missing hold their results.
--   Routing: a request and its answer through a slave, the master and another slave; Owning joins it
--     with the tables of Address. Network carries messages from handler to handler; Returns has the way of
--     the answers, Unmapped that of a request without an owner.
--   Generators: the class NetworkAnalysis of src/generators/generator.cpp and api/egcomponent/generator.hpp
--     (Network); Ranges has the lemmas, Bits the results.
--   Client: the client side of the locks. Program and Buffers are class Program of src/component/program.cpp;
--     Traits is readlock and writelock of api/egcomponent/traits.hpp, Codec its encode and decode. Unlocks and
--     Reads hold the counts of what is sent, Consistent and Once the invariant of the bits; Cycles, Layouts,
--     Blocking and RoundTrip the results. Layouts joins the templates with Generators.
--   Component: the component of a host beside its lock. State is class Component as its jobs and activities see
--     it, Jobs is src/component/jobs.cpp, Activities the enrolment, the tests, the loads of programs and
--     configurations and the buffers of src/component/activities.cpp; Requests has the result.
--   Python: the iterator of src/python/python_iterator.cpp (Iterator); Scan and Visits hold the lemmas of its
--     two loops, Loop the result.
--   Tests: concrete runs.
--
-- How the parts interact: a host's request reaches Slave.Route.client_message, which looks the type up in
-- a table of Address and sends it to Master.Route.route_client_message; from there it goes to
-- Slave.Route.server_message of the owner's slave and to Lock.Requests.server_message of the owner. All
-- these handlers are functions of activities, which Queue calls.
--
-- Choices. An object that the source shares by a pointer is a field of the state that is passed on: the two
-- simulation locks belong to one Component. A function that may throw returns a Result; an exception on
-- the queue's thread ends the process, so no step follows it. The program of a component is a plugin that
-- is loaded at run time, and Lock.Component.Plugin holds the calls of it that are made. Whether a message
-- is delivered is a parameter. An index out of a table's bounds is undefined in the source and throws in
-- the models, and so does the removal of a map's entry that a loop stands on. Numbers are natural numbers;
-- the source mostly compares, stores and copies its 32-bit numbers, and 2 ^ 32 - 1 and 2 ^ 32 - 2 are the two
-- reserved client numbers. Generators.Network keeps the 32 bits of the hash total with its wrap-around, and
-- Client.Codec the casts. Positions of the Python iterator do not wrap, since a range that ends does not reach
-- 2 ^ 32. Fuel: Master.Clients.for_each_client_id is a loop that does not end; the two loops of the iterator
-- have fuel, and more than the positions of the range and than its subranges is enough; every other loop runs
-- over a list. The activities of a slave are known by numbers; the object of an activity is a record that its
-- handlers take and return.
--
-- Assumptions. In Lock.System hosts only send an unlock when they hold the lock (Conforms), and the
-- program is changed only while the simulation thread is not blocked. Whether `break` inside the macro
-- DO_STUFF_AND_REQUIRE_SEMI_COLON of the common library leaves the loop is a parameter of deliver. In Client.Program every send on the eg socket
-- succeeds, and the plugin calls finitely often in a cycle, which is a tree of its calls and of what it does
-- with their answers. The packer and the unpacker of msgpack are a parameter with the law that an object that
-- was packed is the next one and converts back (Lawful). The project tree of a program, the expansion of a
-- command and the unique strings are parameters.
--
-- Not modelled: sockets, shared memory, threads below the level of whole handlers, the eg compiler and its
-- database, the printing of code by the generators and the driver that runs tools, the bindings of the hosts,
-- the generated code, the listing of clients, and the plugin and the event log of a program.
pub mod Common
pub mod Protocol
pub mod Lock
pub mod Address
pub mod Queue
pub mod Master
pub mod Slave
pub mod Routing
pub mod Generators
pub mod Client
pub mod Component
pub mod Python
pub mod Tests
