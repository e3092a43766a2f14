-- ===== src/Lib.antt =====
-- Verification of protocol-tn5250, a C++ library for the IBM 5250 terminal protocol (TN5250, RFC
-- 1205 and RFC 2877): Telnet negotiation, record framing, sign-on, and the 5250 data stream.
--
-- How the parts work together. Bytes of the socket go to ProtocolHandler::onBytesReceived
-- (tn5250/client/protocol_handler.cpp). It answers the negotiation, undoes the doubling of 0xFF,
-- collects each record up to IAC EOR, mends a wrong length field and hands the record over. The
-- application gives the record to Decoder::parseData (tn5250/client/decoder.cpp), which cuts the
-- stream by the length fields, reads the header, the commands and the orders, and calls the
-- application back. The sign-on uses IBMRSeed (tn5250/client/ibmrseed.cpp), which uses CodePage
-- (tn5250/codepage/codepage.cpp).
--
-- Base: numbers, bytes, lists and Boolean tests that the files share.
-- Protocol: tn5250/protocol_constants.h.
-- Telnet: tn5250/telnet. Command holds the codes of commands.h and options.h, Names their names
--   (commands.cpp and options.cpp), Client the parser of client.h and client.cpp; Client/Hearing
--   specifies it by a parser without a buffer, Client/RoundTrip reads what sendRawData writes.
-- Decoder: tn5250/client/decoder.h and decoder.cpp. Event holds the callbacks as data, Orders the
--   loop over the orders of a Write To Display, Payload the loop over the commands, Stream the loop
--   of parseData. Orders/Ends and Payload/Ends are about the fuel, Stream/Framing, Stream/Chunks and
--   Stream/Records about the stream. Grammar is a specification of the data stream apart from the
--   code: orders, commands and records as data, the bytes of each, and what each means; its children
--   are the proofs that the decoder implements it.
-- Handler: tn5250/client/protocol_handler.h and protocol_handler.cpp. State holds the members, Send
--   the sending side, Repair repairGdsRecordLength, Handshake the negotiation, Receive
--   processTelnetData; Repair/Chain, Repair/Mend, Receive/Loop, Receive/Framed, RoundTrip, Completes,
--   Unframed, Reconnect and Announce are proofs, the last over every sequence of calls
--   (Announce/Reach). Environ/Reader is a reader of RFC 1572, and Environ and Environ/Cut set the
--   reply to NEW-ENVIRON against it and the Telnet client.
-- Session: the handler in front of the decoder.
-- TelnetParsers: the handler and the Telnet client at the same stream.
-- Names: the descriptions of all codes against each other.
-- Message: tn5250/message, the records as objects. Record holds Message::unmarshal and
--   Message::marshal (message.h and message.cpp), Header the fixed header, Command the commands and
--   their dispatch, Order the orders and the loop over them, Result the errors. Order/Reads,
--   Order/Loop, Order/Sequence, Command/Reads, Record/Loop, Record/RoundTrip and Record/Errors are
--   proofs; OnWire and Agreement set the messages against the decoder and the grammar of the data
--   stream, Session sends them to the handler in front of the decoder. Describe holds the describe methods,
--   Describe/Names the descriptions of codes, and Describe/Nesting proofs. Typed is about the ranges
--   of the members.
-- Devices: tn5250/devices.
-- Utils: tn5250/utils. Endian, Binary and Hex hold the byte orders and the texts, Hex/Laws and
--   Hex/Dump proofs. Text is what the streams of the other parts write: Text/Lines their numbers,
--   names and indented lines, Text/OneLine proofs.
-- IbmRSeed: tn5250/client/ibmrseed.cpp, with proofs in Laws, Size and Chain.
--   Evp holds desEcbEncrypt and desCbcEncrypt with the calls that they make of OpenSSL.
-- CodePage: tn5250/codepage/codepage.cpp, with the tables in Tables, the names in Names and proofs in
--   Laws and Utf8.
-- Tests: concrete runs.
--
-- How the code is written down. A class is a record of its members, and a method is a function from
-- the record before to the record after. A callback is an event at the end of the member `calls`, so
-- that the order of all callbacks is seen; every callback is taken to be installed, and none calls
-- back into its object. A byte is a number, and where the code casts to uint8_t or uint16_t the
-- remainder is written out. A loop with an index over a vector is a function of the bytes from the
-- index on. A loop that may take several bytes in a round has fuel, which is the number of bytes left:
-- each round takes a byte at least, so that it is enough.
--
-- An std::string *error of tn5250/message is taken to be given, and what its text says is a data type.
-- A buffer is taken to be shorter than 2 ^ 32 bytes, as uint32_t read counts need.
--
-- A stream that describe writes to has the default flags, and an indentation is not negative.
--
-- Not modelled: what OpenSSL computes (IbmRSeed/Evp takes its answers as the parameter Evp, and the
-- other files take DES as two functions, Des); the random device, a parameter (random_byte); and the
-- wording of the error messages, which stand as a data type.
pub mod Base
pub mod Protocol
pub mod Decoder
pub mod CodePage
pub mod IbmRSeed
pub mod Telnet
pub mod Handler
pub mod Session
pub mod Names
pub mod TelnetParsers
pub mod Message
pub mod Utils
pub mod Devices
pub mod Tests
