-- ===== src/Lib.antt =====
-- A model of pyrad, a RADIUS library in Python, and proofs about it.
--
-- The program. A packet (pyrad/packet.py) is an ordered dict from attribute keys to encoded values,
-- with a header. Clients and servers encode packets into datagrams, sign them with MD5 digests over
-- a shared secret, and decode and verify what they receive. The names and types of attributes come
-- from a dictionary (pyrad/dictionary.py, over pyrad/bidict.py), the values are encoded by
-- pyrad/encoding.py. A server (pyrad/server.py, pyrad/proxy.py, pyrad/server_async.py) takes a
-- datagram from a socket, decodes it, finds the secret of its sender, checks its code and hands it to
-- a handler. A client (pyrad/client.py, pyrad/client_async.py) sends a request, again after a timeout,
-- and returns the reply that it can verify. Dictionaries are read from files that can include others
-- (pyrad/dictfile.py).
--
-- The files.
--   Common        lists, numbers, results and actions; `Result` is a returned value, a raised
--                 exception, or `stuck`, a loop that has not ended; `Exec` is a method that changes
--                 the object and may raise: what it wrote before the exception stays written
--   Bidict        pyrad/bidict.py: `add`, `del_item` (`__delitem__`) and the lookups
--   Externals     what is taken from hashlib, hmac and ipaddress: parameters, with the size of a digest
--   DictFile      pyrad/dictfile.py: `make_node` and `next_of` (`_Node`), `round`, the body of the loop
--                 of `__next__`, and `all_lines`, what a `for` loop gets; DictFile/Expansion has the
--                 reference, a relation between lines and what they stand for
--   Dictionary    pyrad/dictionary.py: Dictionary/Types the data, Dictionary/Tokens and
--                 Dictionary/Parse the parsers of the lines, Dictionary/Read `read_dictionary` and the
--                 constructor; Dictionary/Consistency their theorems
--   Encoding      pyrad/encoding.py: `encode_attr`, `decode_attr` and the functions per data type;
--                 Encoding/RoundTrip and Encoding/Ipv4 decode what was encoded
--   Packet        pyrad/packet.py: Packet/State the object, Packet/Encode and Packet/Decode the wire
--                 format, Packet/Names and Packet/Access attributes by name, Packet/Crypt passwords
--                 and salts, Packet/Raw, Packet/Authenticator, Packet/Reply and Packet/Request raw
--                 packets, their digests and their verification, Packet/Create the constructors;
--                 Packet/Encode/Tlv, Packet/Decode/Tlv and Packet/Decode/Subs have the proofs about
--                 sub-attributes
--   Host          pyrad/host.py, and RemoteHost of pyrad/server.py; Host/Sending what is sent
--   Server        pyrad/server.py: `process_input` (`_process_input`) and `run`, over a list of events;
--                 Server/Sockets the sockets, of a proxy too, and `create_reply_packet`; Server/Genuine
--                 what a request of a client becomes, Server/Survival what the loop survives
--   Proxy         pyrad/proxy.py
--   ServerAsync   pyrad/server_async.py: `datagram_received` and the dispatch to the
--                 handlers; ServerAsync/Transports the protocols that listen, ServerAsync/Sending the
--                 replies
--   Client        pyrad/client.py: `send_packet_to` (`_send_packet`) over a trace of attempts, and
--                 `send_packet`, with Client/Eap; Client/Sockets the socket; Client/Sending,
--                 Client/Replies, Client/Waiting, Client/Delay and Client/Retries say what it sends,
--                 what it returns, how it ends and which delay it says
--   ClientAsync   pyrad/client_async.py: the protocol with its pending requests, `check_pending` (a
--                 round of `_timeout_handler`), `datagram_received`; ClientAsync/Transports the class
--                 ClientAsync; ClientAsync/Events the events as steps, ClientAsync/Invariant with
--                 ClientAsync/Budget, the datagrams that may still be sent, ClientAsync/Replies,
--                 ClientAsync/Genuine and ClientAsync/Timing what holds of them
--   Curved        pyrad/curved.py: `datagram_received`; Curved/Dropping what becomes of a datagram
--   Examples      example/server.py, example/client-coa.py and example/server_async.py: their
--                 handlers, `print_attributes`, and `respond`, the datagram that a server sends for the
--                 one it gets; Examples/Exchange has a request of a client, the answer of such a server,
--                 and what the client makes of it, for the three kinds of packets
--   Tests         the theorems at concrete inputs
--
-- Correspondence. Functions have the names of the methods, without leading underscores; `self` is a
-- record, and a method that changes it returns it. Texts are lists of code points, bytes lists of
-- numbers. A dict is an association list in the order of insertion. Random numbers, the identifier of
-- a new packet and the digests are arguments. A mutable Attribute object, which several dicts share,
-- stands in a heap. The asynchronous client numbers its futures; the clocks are counters of
-- microseconds.
--
-- Fuel. Loops over bytes get the number of bytes as fuel. A round of the loop of `decode_packet`, and
-- of the password loops, takes at least one byte, so this is enough. The loops over sub-attributes
-- need not advance: there `stuck` says that the program's loop does not end, and Packet/Decode/Hang
-- says why the fuel does not matter.
--
-- A trace of the client has what the calls of the clock and of `poll` return; when it is used up, the
-- call has not come back. The loop over included files need not end either: its rounds are on fuel,
-- and DictFile/Expansion has the number of rounds that an expansion takes.
--
-- Not modelled: the opening and closing of a server's sockets, polling, logging and the event loop of
-- asyncio (the socket of a client is a file number, with the list of the watched ones; a datagram is
-- what `recvfrom` gives, cut to `max_packet_size`); a timeout of the client that is no whole number of
-- seconds; the main functions of the example servers, and the example clients, which print what they
-- get; the file names and line numbers of the parser's error messages; Twisted, under
-- pyrad/curved.py.
pub mod Common
pub mod Bidict
pub mod Externals
pub mod Dictionary
pub mod DictFile
pub mod Encoding
pub mod Examples
pub mod Packet
pub mod Host
pub mod Server
pub mod Proxy
pub mod ServerAsync
pub mod Client
pub mod ClientAsync
pub mod Curved
mod Tests
