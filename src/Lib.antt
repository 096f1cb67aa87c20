-- ===== src/Lib.antt =====
-- A model of scamp-go, a Go library for services that talk over TLS in packets, and what is proved of it.
--
-- The program's parts, and the files that model them (paths from the repository's root):
--   scamp/packetheader.go   Header      the header of a packet and its JSON form
--   scamp/packet.go         Packet      frames on the wire: ReadPacket and Packet.Write
--   scamp/message.go        Message     messages, and the packets that they are sent as
--   scamp/connection.go     Connection  routing of packets, the reading loop, Send
--   scamp/client.go         Client      numbered requests and the replies to them
--   scamp/ticket.go         Ticket      VerifyTicket, Expired, CheckPrivs
--   scamp/action_options.go Action      ServiceOptionsFunc.Call and ReplyOnError
--   scamp/serviceproxy.go   Proxy       announced services, and the JSON of their class records
--   scamp/verify.go         Signature   signatures, and the check of a proxy's (with serviceproxy.go)
--   scamp/servicecache.go   Cache       the cache of service proxies, the scan of its file, Do
--   scamp/cert.go           Cert        the fingerprint of a certificate
--   scamp/service.go        Service     actions, clients, the loop of Handle, the announcement
--   scamp/requester.go      Requester   MakeJSONRequest
--   scamp/refresher.go      Refresher   what keeps a cache up to date
--   scamp/config.go         Config      the configuration and its file
--   scamp/discoveryannounce.go  Announcer  the loop of announcements and its rounds
--   scamp/multicast.go      Multicast   the address to announce, and the socket
--   scamp/init.go           Init        Initialize, with what config.go and servicecache.go do for it
--   scamp/debugger.go       Debugger    the numbers of debuggers, and their files
--   scamp/timestamp.go      Timestamp   the time of day as text
--   scamp/scamp.go          Tool        announcements signed by hand, fingerprints of certificates
--   scamp/mocked.go         Mocked      a requester that answers from a table
--   scamp/authorizedservices.go  Authorized  the file of authorized services
-- scamp/service_stats.go is with Service, whose Run is Service/Running, its running
-- file Service/Files, NewService Service/Starting and PrintStatsLoop Service/Stats.
-- GetClient of scamp/serviceproxy.go, Dial, and what Close of scamp/client.go does to proxies are Pool.
-- Base holds what they share: tests on numbers, lists, bytes, maps, results, decimal text and splitting.
-- Tests runs the definitions at concrete inputs.
--
-- How they interact: a client sends a message by its connection, which turns it into packets
-- (Message.to_packets) and writes each (Packet.write_packet). On the other side packet_reader takes
-- packets off the input (read_packet) and routes them (route_packet), which builds messages and puts
-- them on the connection's channel. The client's loop takes them from there (dispatch), a request to
-- the service and a reply to the channel of its request. A service calls an action under its options
-- (Action.call), which verifies the message's ticket. A service marshals its announcement as a proxy
-- (Service.Marshal.marshal_text), signed (Signature.sign_sha256); the cache scans such texts from its file
-- (Cache.Scan.do_scan), checks each (Signature.validate) and stores it. A requester finds proxies in the
-- cache, calls GetClient of each, and sends by the client with the fewest open replies
-- (Requester.send_request). A refresher reads
-- the cache's file again, on ticks or on calls. GetClient reuses the client that a proxy holds or dials
-- one (Pool.get_client). Initialize reads the configuration (Config.load) and the cache's file
-- (Cache.Scan.refresh) and makes the refresher. An announcer marshals its services in rounds
-- (Announcer.announce_loop), and the signing tool prints such announcements for a cache's file.
--
-- How code and model correspond. A component's state is a record with the fields of the Go struct, and
-- a method is a function from that record (and the arguments) to the new record and the results. Names
-- are those of the code in snake case. Errors are values; a panic that the code can reach is one too
-- (size_panic, key_panic, Round.panics). Machine integers are the patterns of 64-bit words: a number
-- below 2^64, with sums taken modulo 2^64, and a negative int is 2^64 less its size. Maps are
-- association lists, Go strings and byte slices are lists of bytes, a channel is the list of what was
-- sent on it.
--
-- Bounds and fuel. read_line cuts lines at the 4096 bytes of bufio's buffer. max_alloc, 2^48, is the size
-- at which make panics. split_chunks has fuel one more than the length of the text, and each round takes
-- a byte or more. packet_reader has fuel for its rounds: one more than the bytes to come is enough, since
-- each packet takes some of them. write_retrying counts down from the retry limit of the code, 50. digits
-- writes a number with fuel one more than the number, and rows cuts a text with fuel one more than its
-- length. scan_lines has one more than the text, scan_records one more than the lines, of which each
-- round takes one. await_response counts down from the code's 20 attempts, do_from from the 10 attempts
-- of MaxRetries, and a debugger's attempts at its number from the code's 10. half_buffer, 2,048, is half of
-- the buffer that a scanner starts with.
--
-- What is taken as given. encoding/json is the interface Json, with the laws Laws where a theorem needs
-- them: a quoted text reads back, a number reads back, an object gives its members. JSON arrays are the
-- interface Arrays, with ArrayLaws: an array gives its texts and is one line. The file of keys, pem, x509,
-- base64, sha256 and rsa are the record Crypto, and for signing the record Certificates, with SigningLaws.
-- The shuffle and the sort of a request, and the numbers of proxies, are the record Choice; the URLs and
-- connections of GetClient are the record Network. net.ParseIP is in Net, ParseCIDR and the texts of
-- addresses are in Addresses. What files hold is an argument, and which calls of os are refused is the record Refuses;
-- key pairs, listeners and interfaces of a service are the record Host. Floats are the record Floats. Time is an
-- argument. Which calls of a writer fail, and how, is part of the writer. Sscanf, TrimSpace and ScanWords
-- are on ASCII text, ToLower on ASCII letters.
--
-- What is not modelled: TLS, dialling and listeners, the debugger's tee of the wire (it is off), logging,
-- and clocks. Goroutines and locks are modelled where a client's steps interleave (send_on_wire and
-- register, arrive, and the runs of Client/Waiting), in the step relations of the service's clients, of the
-- refresher and of the debuggers, and as lists of events in Run and AnnounceLoop. In the model:
--   * What is sent on a channel is taken as received at once. The channels of the code have no buffer, so that
--     packetReader and the client's loop wait at a send for which nobody receives; Client/Waiting is the
--     client's loop with these waits, as a step relation.
--   * The buffered writer of a connection, its flush and TLS are one writer, whose calls fail as it says.
--   * A configuration's values are slices of the scanner's buffer: Config.load is exact for a file of up to
--     2,048 bytes, half of that buffer, and takes what becomes of the values of a longer one as given.
--   * A scanner stops at a line that is too long, where Go's, asked once more, can give what its buffer holds.
--   * Stop's look at `running` and its resetting of the context are one step.
pub mod Base
pub mod Header
pub mod Packet
pub mod Message
pub mod Connection
pub mod Client
pub mod Ticket
pub mod Proxy
pub mod Cache
pub mod Action
pub mod Cert
pub mod Service
pub mod Config
pub mod Pool
pub mod Requester
pub mod Refresher
pub mod Announcer
pub mod Tool
pub mod Multicast
pub mod Init
pub mod Debugger
pub mod Timestamp
pub mod Mocked
pub mod Authorized
pub mod Signature
pub mod Tests
