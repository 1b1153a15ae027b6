-- ===== src/Lib.antt =====
-- A model of the programs that steer a motor by a Myo armband, and of the data that they exchange.
--
-- The parts, and how they interact. MyoNucMotor/MyoNucMotor/main.cpp holds three programs, of which
-- a macro selects one. The section MAIN runs the armband's events through the listener DataCollector,
-- writes the listener's speed as a text command to the motor controller on a serial line, reads the
-- controller's readings from that line, and sends them as a protocol buffer message (Sensor) to a
-- client. NUCServer/NUCServer/Server.cpp (copied as the section NUCServer) forwards the readings
-- without an armband. MyoWin/MyoWin/main.cpp (copied as the section MyoWin) steers the motor without
-- a client. All of them use the class CSerialPort. MyoChecker is the client, an Android program.
--
-- The files:
--   Base          numbers, Boolean tests, lists measured by native numbers, integers
--   Sensor        NUCServer/NUCServer/data.pb.{h,cc}: the message as a record, its methods as functions.
--                 Sensor/WireFormat has the calls of the protocol buffer library as the record `Wire`,
--                 and what is relied on of them as `IsWire`; Sensor/Parse has the parser, with one
--                 function for each label that the code jumps to; Sensor/Operations has sequences of
--                 calls; Sensor/Size, Merge, Reader, RoundTrip, Stream and Termination have the
--                 proofs, and Sensor/Refines compares the methods with a list of five values.
--   Text          the cuts of std::string, std::unique on newlines, character arrays
--   Line          which line is parsed, and the five blocks that parse it: `select` and `read_args`
--                 for the section MAIN, `server_select` and `server_read_args` for the server
--   Serial        CSerialPort: `open_port` is Open, `close` Close, `read` Read, `write` Write, `flush`
--                 Flush, `set_timeout` SetTimeout, `count_read_buff` CountReadBuff, `destroy` the
--                 destructor; Serial/Win32 has the calls of Windows. Serial/Errors has GetLastErrorString,
--                 and Serial/Echo the program SerialPortTest.cpp.
--   Startup       the steps of the three programs up to their loops
--   Collector     DataCollector: `on_orientation_data` is onOrientationData, `on_pose` onPose,
--                 `is_update_reference` isupdateReference; Collector/WinCopy has onOrientationData of
--                 MyoWin, Collector/Sdk the SDK, and Collector/Print the line that print writes.
--   Command       the text command, as it is built in the array `buff`
--   Rounds        how a round of a loop ends, what a loop keeps if its rounds do, and the parts that
--                 the loops share
--   Controller    the loop of the section MAIN; Controller/Frames is about lines that can be parsed,
--                 Repeats about those that cannot, Ready and Ready/Runs about all that is sent, Safety about
--                 arrays. Controller/Spec is a machine that forgets the message and the array, and
--                 Controller/Refines compares the answers with it, Controller/Begins from the start
--                 on, and Controller/Whole does so for the loop.
--   Server        the loop of the server; Server/Refines and Server/Whole compare it with what it
--                 promises its client.
--   WinClient     the loop of MyoWin, with its timer
--   OnPort        the three loops on CSerialPort: what `Read` stores is what the loop is given
--   Sockets       the connection to the client: `connect` from WSAStartup to accept, `transmit` the calls
--                 of send; Sockets/Calls has the calls of Winsock as the record `Winsock`, and what is
--                 relied on of them as `IsWinsock`.
--   Exits         each `main` as a whole: startup, first command, loop, and the ways out of it
--   Sessions      `main` of the section MAIN and of MyoWin with all of their calls of CSerialPort and
--                 Winsock on the state of the operating system: Sessions/Programs has the two,
--                 Sessions/Phases compares their rounds with those of Controller and WinClient,
--                 Sessions/Client is about the calls of Winsock beside the port, and Sessions/Ends about
--                 open handles.
--   Checker       MyoChecker/app/src/main/java/com/myoprj/myochecker, the Android client: Data.java
--                 (`java_parse` is its parsing constructor) and the thread of MainActivity.java
--                 (`check_update`).
--                 Checker/Input has the calls of the protocol buffer library for Java as the record
--                 `JavaWire`, and what is relied on of them as `IsJavaWire`; Checker/Sent and Checker/Numbers
--                 are about what is sent, Blocks, Shows and Socket about what the client makes of it.
--   Copies        the operations of the files that the repository holds more than once
--
-- Conventions. A float is its bit pattern, a number below 2 ^ 32, so that the tests against 0 are exact;
-- the listener computes with floats, which are the abstract type of `Sdk`. A byte is a number, a
-- character array a list of them, and a call that would leave an array, or that the C library refuses,
-- stops the program (`Result`). An exception that a handler catches is a value (`Try`). A round of a
-- loop is given the events and the read of that round; `run` makes as many rounds as there are inputs.
--
-- Fuel. The parser's loop has one round for each byte of the input and one more: each round that goes
-- on has taken a tag of a byte at least. A decimal has ten digits at most, which an int needs.
--
-- Not modelled: the output on the console, but for DataCollector::print, GetLastErrorString and
-- SerialPortTest; exceptions of memory allocation; descriptors, arenas and metadata of the message;
-- what `send` and `port.Write` answer, which the code ignores; delays; the user interface of
-- MyoChecker, whose handler reads the shared array textMsg when it comes to run, so that a newer
-- message may be on the screen in place of one that was handed to it, and bledComm (Python); the SDK, the protocol buffer library and the libraries of
-- Windows, which are parameters.
pub mod Base
pub mod Sensor
pub mod Text
pub mod Line
pub mod Serial
pub mod Startup
pub mod Collector
pub mod Command
pub mod Rounds
pub mod Controller
pub mod Server
pub mod WinClient
pub mod Copies
pub mod Exits
pub mod Sockets
pub mod Checker
pub mod OnPort
pub mod Sessions
