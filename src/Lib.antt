-- ===== src/Lib.antt =====
-- sys-zerotier: a virtual LAN for console games over ZeroTier.
--
-- The program intercepts the socket calls of a game (source/mitm), keeps a virtual network interface
-- (source/net) in place of the console's own, and exchanges that interface's frames with a ZeroTier
-- node (source/zt_port.cpp). This development is about the interface, class VNet, which has no
-- dependency on the console, about the shim that mirrors a game's sockets on it, the configuration,
-- and the socket that carries ZeroTier's packets.
--
-- Parts and files:
--   Base        shared names: Boolean tests on numbers, lists, C arrays as functions of an index,
--               the casts of C, `&` and `|` as arithmetic, counting in lists.
--   Net         source/net/net.hpp: rd16, wr16 and so on, checksum16, macToBytes. Net/Order is about
--               byte order, Net/Checksum about the internet checksum.
--   Lifetime    source/net/lifetime.hpp: ProcessListConfirmsExit.
--   Vnet        source/net/vnet.hpp: the state of VNet. Its operations, from source/net/vnet.cpp:
--     Address   reset, configure, isForUs, lookupMac (lookup_mac), learnMac (learn_mac)
--     Pool      allocPkt (alloc_pkt), freePkt (free_pkt)
--     Sockets   pushToSocket and the udp calls. Layout holds the invariant of the pool and the
--               queues, Mailbox the abstract view: a list of datagrams per socket and a number of
--               spare packets. Push, Take, Free, Table and Reset relate the operations to it;
--               Ephemeral and Bind are about port 0.
--     Transmit  sendIpv4, emitIpFragment, sendArpRequest, udpSendTo (udp_send_to) and
--               sendEchoRequest. Header and Datagram are about what a receiver reads in a packet,
--               Split about the fragments of a payload, Table and Setup about what sending leaves alone.
--     Protocols onArp, onUdp, onIcmp and deliverIpv4
--     Receive   onFrame (on_frame), and onIpv4 with its reassembly. Demux is about the delivery to
--               sockets, Slots about the reassembly table, Ready about the invariant,
--               Accept about the acceptance of packets that Transmit builds.
--     Run       histories of calls.
--     Delivery  a datagram from one console to another.
--     Resolution the exchange of an ARP request and its reply.
--   Config      source/zt_port.cpp: the lines of config.ini and networks.ini, and ParseNwid. Saved: the
--               selection, the catalog and ResolveConfiguredNetworkId. Keys: ConfigFlag, ConfigValue
--               and ConfigIpv4. Nwid, Strings, Ids and Keys/Range hold the theorems.
--   Bsd         source/mitm/bsd_shim.cpp. Lan: the table of mirrored sockets, which calls the virtual
--               interface through class Port; Lan/Sending: ResolveMMsgDestination and
--               SuppressPhysicalUdpError; Message: serialised message vectors; Proxy:
--               BuildSplatoon2ProxyConfig; Sessions: CountClientSession.
--     Service   the commands of bsd:u: Socket, Close, Bind, SetSockOpt and SendTo. Connected: Connect,
--               Send and GetPeerName; Sending: MirrorMMsgBuffer and SendMMsg; Reading: Recv, RecvFrom
--               and GetSockName; Waiting: Poll, Select, FdIsSet and FdSet. Names, Address,
--               Sending/Destination, Sending/Vector, Waiting/Polled and Waiting/Selected hold the
--               theorems.
--   Port        source/zt_port.cpp: the adapter between the node and the console. Port itself has
--               cbWireSend and maintainWireSocket; Recovery is about the states that they reach.
--     Queue     the outbound queue: cbEmit, drainOutbound. Order is its abstract view, a bounded list.
--     Gate      RequestQuiesce, WaitQuiesced, SignalResume and the pause of the node thread, as steps
--               of two threads. Parked is about the runs of the two.
--     Service   the rest of class Port: cbNetworkConfig, pollNetworkSelection, switchNetwork and
--               maintainNatWire. Round is one turn of the service loop, with the wire's socket;
--               Network, Subnet, MappedWire and Round/Idle hold the theorems.
--   Nat         source/nat_mapper.cpp: MapPmp, MapUpnp, one round of Main, ConfigureNatMapper and
--               GetNatEndpoint. Worker has the steps of the worker and of its clients, Safe the
--               requests that UPnP makes, Lease and Quiet the states that the steps reach.
--   Log         source/zt_port.cpp: Event, EventText, and the length that Trace keeps. Ring is about
--               the order of the lines.
--   Files       source/zt_port.cpp: cbStateGet and cbStatePut. Paths and Store hold the theorems.
--   Nifm        source/mitm/nifm_shim.cpp: the requests of nifm:u and the address that it reports. Titles:
--               source/mitm/lan_titles.hpp; Held is about the histories of a request.
--   Tests       runs at concrete inputs.
--
-- How the code is represented: an unsigned integer of w bits is a number with its wrap-around
-- written out; an `int` that is an index or -1 is an Option; a fixed array is a function of its
-- index; a buffer with a length is the list of its bytes. The emit callback is outside: the state
-- records its calls in order, and a flag says whether one is set. A method is a function from the
-- state to the state and its result. The `onX` handlers whose body follows a counter are split into
-- the counter and the body.
--
-- Bounds: a loop over an array counts down its length. The fold of the checksum has fuel 3, the
-- fragmentation loop as much fuel as the payload has bytes, the loop of udpClose as much as the pool
-- has packets, and the search for a port its 4096 tries, as in the code: a sum of 32 bits folds
-- within three rounds, a round of the fragmentation takes a byte at least, and no chain is longer
-- than the pool. A socket is read at most 16 times in a row, the mapper tries 4
-- external ports, and a resume tries 30 times more to open the socket, all as in the code. The
-- outbound queue is drained until it is empty, with fuel 32: it holds at most 31 frames, and no other
-- thread emits while it is drained in one go. A 32-bit number has at most 10 decimal digits and a 64-bit one 16
-- hexadecimal digits, which is the fuel of the printing.
--
-- Interleavings: a section of the shim that holds a lock is one step; EnsureLanMirror takes as an
-- argument what other threads do between its sections, Poll and Select take the state behind the wait
-- for the console's service, and switchNetwork the frames that are emitted once it has emptied the
-- queue. MirrorMMsgBuffer is one step, although the code takes the locks anew for each message. The
-- wire's states are those that its steps reach, in any order, sleep and wake-up included. The sleep gate and the mapper are step relations, whose steps are the sections
-- between two accesses to shared state.
--
-- Outside the program: the ZeroTier node is a record of the answers that its calls give, and the calls
-- themselves are recorded in order. The file system is a record of operations with laws. The answers
-- of the gateway and of the router, which libnatpmp and miniupnpc read, are arguments, and so are the
-- answers of the console's own socket service, which is none when the call of it fails.
--
-- Not modelled: the bytes of a packet buffer behind its length; the text of diagnostics, status.txt
-- and the list of peers, which no decision of the program reads; the commands of bsd:u that are only
-- forwarded, and those of nifm:u; the overlay and the start-up code, which call the console's services.
pub mod Base
pub mod Net
pub mod Lifetime
pub mod Config
pub mod Vnet
pub mod Bsd
pub mod Port
pub mod Nat
pub mod Log
pub mod Files
pub mod Nifm
pub mod Tests
