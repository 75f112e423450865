-- ===== src/Lib.antt =====
-- Robot Raconteur core (RobotRaconteurCore): the message objects and their binary formats, and the
-- members over which values are streamed, pipes and wires.
--
-- A node exchanges Message objects: a MessageHeader and a list of MessageEntry objects, each with
-- MessageElement objects whose data is an array of numbers or a list of elements. A transport asks a
-- message for its size (ComputeSize, which updates sizes, counts and types in the message), gives it
-- an ArrayBinaryWriter on a buffer of that size (Write), and on the other side makes an
-- ArrayBinaryReader on the bytes and reads the message (Read). Reader and writer keep a stack of
-- limits, by which every section of the format is confined to the size in front of it. There are two
-- formats: version 2 has every field at its full width, version 4 has only the sections that flags
-- announce, and variable-length integers. On messages run the pipes, which deliver every packet in
-- order by its number, and the wires, which deliver the latest value by its time.
--
-- - Prelude: native numbers, lists of bytes, integers, numbers as bytes, for all parts.
-- - Outcome: the exceptions, undefined behaviour, and the monad of a method that may throw and
--   changes its object.
-- - Arrays: RobotRaconteurCore/src/DataTypes.cpp, RRArrayElementSize and AllocateRRArrayByType, and
--   the enum DataTypes of RobotRaconteurCore/include/RobotRaconteur/RobotRaconteurConstants.h.
-- - Io: RobotRaconteurCore/src/IOUtils.cpp and include/RobotRaconteur/IOUtils.h. Io.Reader is the class
--   ArrayBinaryReader (Read is read, ReadUintX is read_uint_x, PushRelativeLimit is
--   push_relative_limit, and so on), Io.Writer the class ArrayBinaryWriter, and Io.Sizes its byte
--   counts. Io.Encoding states the encodings apart from the code; Io.Writes, Io.Pops and Io.Reads hold
--   the rules by which what a method writes or reads follows from its parts, Io.Sound and Io.Safe those for any
--   input.
-- - Message: RobotRaconteurCore/src/Message.cpp and include/RobotRaconteur/Message.h. Message.Data
--   has the objects; Message.V2 the version 2 format, where Size, Write and Read are the code
--   (MessageElement::UpdateData is update_data, MessageEntry::UpdateData update_entry,
--   MessageHeader::UpdateHeader update_header, Message::ComputeSize compute_size, Message::Write
--   write_message, Message::Read read_message), Wire and Frame state the format apart from the code,
--   and Invariant and Frame say when the sizes in an object are right. Message.V4 has the version 4
--   format in the same way (UpdateData4 is update_data4, ComputeSize4 compute_size4, Write4
--   write_message4, Read4 read_message4, and so on; Flags has what UpdateHeader4 and UpdateData4 make of
--   the flags, Parts the sections behind them). Message.Objects has the
--   functions that build, search and copy messages (ShallowCopyMessage is shallow_copy_message),
--   Message.Copy and Message.Lookup what is shown of them.
-- - Pipe: the class PipeEndpointBase of RobotRaconteurCore/src/PipeMember.cpp. Pipe.Endpoint is the code
--   (PipePacketReceived is pipe_packet_received, AsyncSendPacketBase send_packet), Pipe.Order has the
--   histories of an endpoint as a relation, Pipe.Steps and Pipe.Delivery what they keep.
-- - Wire: TimeSpec of RobotRaconteurCore/src/DataTypes.cpp in Wire.TimeSpec and Wire.Time, and the class
--   WireConnectionBase of RobotRaconteurCore/src/WireMember.cpp in Wire.Connection (SetOutValueBase is
--   set_out_value, WirePacketReceived wire_packet_received, GetInValueBase get_in_value). Wire.Latest is
--   about one end, Wire.Delivery about two.
-- - NodeId: RobotRaconteurCore/src/NodeID.cpp. NodeId.Text is the code (init_from_string, and ToString
--   as to_string), NodeId.Digits and NodeId.RoundTrip are about what it prints and reads.
--
-- State is explicit: a method takes the object and gives its result and the object after it, or an
-- exception, or `undefined` where the C++ reads or writes outside its memory or takes the back of an
-- empty vector. The target is wasm32, so a size_t is a number below 2 ^ 32 with wrap-around, and memory
-- is little-endian. A string is its bytes, a shared pointer the value it points to, so no two places of
-- a message hold the same object. The reader's and the writer's buffer is the whole allocation.
--
-- Write and Read of an element recurse into nested lists: they take fuel, which is `stuck` when it
-- runs out. To write or read back a message, as much fuel as its lists are deep is enough; to read
-- any bytes, as much as there are bytes, since an element takes four at least. boost::lexical_cast
-- of an element number and of a UUID, and max_size of std::string and std::vector, are parameters.
-- A std::string of libc++ may have 2 ^ 32 - 17 bytes on a 32-bit target; Message.V4.Tests has a run of
-- Read4 with that size that leaves the buffer, as the bounds test of Read wraps. Memory does not run
-- out, and std::vector::reserve is not modelled. The loop of PipePacketReceived
-- has as much fuel as there are packets that came too early, since it takes one out each time.
--
-- The network is what is left open: a history of a pipe or a wire takes the packets in any order. The
-- clock of the node, the sending by the parent and the number of packets that listeners take are
-- parameters; signed overflow of a TimeSpec is left out.
--
-- Not modelled: the transports and the asynchronous readers and writers; the connecting and closing of
-- pipes and wires, and their broadcasters; callbacks, generators, service definitions, packing of
-- structures, discovery, subscriptions and the node with its threads and timers.
pub mod Prelude
pub mod Outcome
pub mod Arrays
pub mod Io
pub mod Message
pub mod Pipe
pub mod Wire
pub mod NodeId
