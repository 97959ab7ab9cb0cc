-- ===== src/Lib.antt =====
-- A verification library for the Robotiq grippers SDK (sdk_cpp/): a C++ driver that talks Modbus
-- RTU to a gripper over a serial line, keeps a process image of it fresh from a background thread,
-- and offers an application waits and activation procedures on that image.
--
-- The parts, from the wire up. The command and the status are blocks of bytes (Command, Status,
-- Fault; sdk_cpp/include/Robotiq/gripper/command.hpp, status.hpp and fault_status.hpp) at the
-- addresses of RegisterMap (sdk_cpp/include/Robotiq/detail/register_map.hpp), packed into 16-bit
-- registers by Packing (sdk_cpp/include/Robotiq/detail/byte_packing.hpp). The client (ModbusClient;
-- sdk_cpp/src/modbus_client.cpp) sends and fetches them through nanomodbus, which reaches a serial
-- link through two callbacks. The link of a hosted build is DefaultSerial
-- (sdk_cpp/src/detail/default_serial.cpp) over SerialPort
-- (sdk_cpp/src/detail/posix/serial_port.cpp). The exchange thread (GripperState;
-- sdk_cpp/src/gripper_state.cpp) runs one exchange a cycle, publishes it to the image
-- (ProcessImage; sdk_cpp/src/process_image.cpp) and keeps the connection state; its log is thinned
-- by Throttle (sdk_cpp/include/Robotiq/detail/throttle.hpp). The application sets commands and
-- waits on the image (Gripper; sdk_cpp/src/gripper.cpp, sdk_cpp/src/wait.cpp and
-- sdk_cpp/include/Robotiq/gripper/wait.hpp). The deprecated waits by polling are Polling (wait.hpp
-- too). The fake gripper answers in the device's place: its registers and protocol (RegisterModel,
-- Status.Writer; sdk_cpp/src/fake/register_model.cpp and status_writer.cpp), its server and the
-- serial in front of it (GripperServer, ModbusClient.Loopback; sdk_cpp/src/fake/gripper_server.cpp
-- and gripper_serial.cpp). FakeGripper puts the parts together: the procedures over the exchange
-- thread, the client and the fake device (sdk_cpp/src/fake/gripper_factory.cpp). On Windows the
-- link is WinSerialPort (sdk_cpp/src/detail/win32/serial_port.cpp). The waits of the platforms are
-- StdPlatform (sdk_cpp/src/hosted/std_platform.cpp) and ThreadX
-- (sdk_cpp/ports/threadx/threadx_platform.hpp) over Ticks (threadx_ticks.hpp beside it). Units is
-- the conversions between registers and physical units and the range of the exchange frequency
-- (sdk_cpp/src/units.cpp and sdk_cpp/src/frequency.hpp). Rendering is the texts of states and
-- blocks (sdk_cpp/include/Robotiq/gripper/to_string.hpp and sdk_cpp/src/to_string.cpp). The example
-- programs use all of it: GripperEvents (sdk_cpp/examples/gripper_events.cpp) activates, recovers
-- and moves, MoveGripper (sdk_cpp/examples/move_gripper.cpp) is a whole program of such calls, and
-- ExchangeLog (sdk_cpp/examples/exchange_log.cpp) records every exchange; ExchangeRateProbe is the
-- command line of sdk_cpp/examples/exchange_rate_probe.cpp. ActivationResult is the result of the
-- procedures (sdk_cpp/include/Robotiq/gripper/activation_result.hpp).
--
-- Prelude and Byte hold what the parts share; the children of a part hold its proofs, named for
-- what they prove, and Tests the theorems at concrete inputs.
--
-- How the code is modelled. A struct or a class is a record of its data members, an enum a data
-- type, and a method a function from the state, and what the outside world answered, to the state
-- after it. Native numbers carry the wrap-around of the C++ type where the code relies on it (the
-- 64-bit exchange count, the 32-bit failure count). A method that holds a lock for its whole body
-- is one function. The interleavings of the exchange thread with the application are a step
-- relation, one access of the shared state at a time (GripperState.Threads); those of ThreadX's
-- waiters are another (ThreadX). In FakeGripper the instants of the thread's steps to come are a
-- schedule, an exchange starts at one instant and ends at the next, the application's own steps
-- take no time, and the thread hangs when the schedule is used up. An exception is a constructor of
-- a result type; the texts of messages are left out, and the lines that are logged are kept as
-- values.
--
-- Bounds and fuel. ProcessImage.sync, the loops of SerialPort, the waits of StdPlatform and the one
-- of Polling run over the list of what the world showed them, round by round: none is lost when the
-- list ends, the loop is then still running. The wait loops of Gripper look at a newer exchange in
-- every round, so a number of rounds that is the limit of the exchange counts is enough fuel: the
-- limit is a law of the handle, below the 64 bits of the counter. Over the fake device a number of
-- rounds past the instants of the schedule is enough (FakeGripper.Loops). Everything else is
-- structural. The deadline of activate() and of recoverFromFault() is the clock's reading plus the
-- timeout with no cap; the clock is taken to be in the lower half of its 64-bit range, so a timeout
-- of at most 4611686018427 ms, the cap of the other waits, does not overflow the sum. For a longer
-- one the model has no result, and the theorems say nothing.
--
-- What is a parameter: nanomodbus, which is vendored (the record Nmbs, with the hypotheses Carries
-- where the client meets the fake gripper, and the poll of the fake server); the operating system's
-- calls, the clock and the file system; what the machine does with doubles (the record Doubles,
-- with the rules of IEEE 754 that a theorem needs, Rounds); the C library's strtod; ThreadX's tick
-- rate, its value for waiting without end and its semaphore, with the documented count of
-- instances; and the gripper behind the handle of the procedures, with laws that FakeGripper.Lawful
-- shows of the handle of the whole program.
--
-- What is not modelled: the constants of the device profiles and the factor of the motor current,
-- which are decimal doubles, the output of the loggers, the creation of kernel objects and of the
-- fake server, the factories beside what FakeGripper composes, the example programs' own output,
-- the measurement of the exchange rate, the examples beside those four, and the tests.
pub mod Prelude
pub mod Byte
pub mod RegisterMap
pub mod Command
pub mod Packing
pub mod ExchangeRateProbe
pub mod Fault
pub mod Status
pub mod RegisterModel
pub mod ModbusClient
pub mod ProcessImage
pub mod Throttle
pub mod Units
pub mod GripperState
pub mod Ticks
pub mod ThreadX
pub mod SerialPort
pub mod WinSerialPort
pub mod DefaultSerial
pub mod Rendering
pub mod StdPlatform
pub mod GripperServer
pub mod ActivationResult
pub mod Polling
pub mod Gripper
pub mod FakeGripper
pub mod GripperEvents
pub mod MoveGripper
pub mod ExchangeLog
pub mod Tests
