-- ===== src/Lib.antt =====
-- The verification library of esp32_usb_ip, a USB/IP server for the ESP32: an ESP32 exports the
-- USB devices behind its host port to a client over TCP, by the USB/IP protocol.
--
-- The program's parts, as far as they are modelled, and the files that model them. Paths are from
-- the repository's root; U stands for components/usbipdcpp/usbipdcpp.
--
--   Wire, Wire/*          U/include/network.h: byte order, and the variadic writers that lay
--                         integers and byte arrays out. `Field` is an argument of the templates.
--   Stream, Stream/*      the readers of the same header, over a socket. asio is a parameter, the
--                         record `Asio` of operations and laws; `Outcome` tells a return from a
--                         throw. `Reads` and `Ends` say how a reader ends on a given stream;
--                         Stream/Feed is a concrete socket, for the examples.
--   SetupPacket,          U/include/SetupPacket.h, the request codes of U/include/constant.h, and
--   SetupPacket/*         `tweak_special_requests` of
--                         components/usbipdcpp/src/esp32_handler/Esp32DeviceHandler.cpp.
--   Protocol              the constants and fixed structures of U/include/protocol.h
--   Protocol/Transfer     the transfer interface of U/include/DeviceHandler/DeviceHandler.h, as the
--                         record `Handler`, and its defaults of U/src/DeviceHandler
--   Protocol/Command      the requests of U/src/protocol.cpp, written and read:
--                         `get_op_from_socket`, `get_cmd_from_socket` and what they call
--   Protocol/*            what is proved of them, by topic
--   Protocol/Response     the replies of U/src/protocol.cpp, as bytes and as what `to_socket` hands
--                         to asio, of which a write is the row of its buffers
--   Device, Device/*      U/include/Device.h, Interface.h, Endpoint.h, Version.h and U/src/Device.cpp,
--                         Interface.cpp: what is sent of a device, and the lookup of an endpoint
--   Ring, Ring/*          U/src/utils/RingBuffer.cpp, with its refinement of a bounded queue
--   ReuseMap, ReuseMap/*  U/include/utils/ReuseMap.h, with the laws of a finite map
--   Server, Server/*      U/src/Server.cpp and U/include/Server.h: the devices on offer and in use,
--                         the moves between them, the list of sessions
--   Session, Session/*    U/src/Session.cpp: the import of a device, the dispatch of commands, the
--                         end of a connection, and any number of sessions on one server
--   Sender, Sender/*      the queue of replies of U/src/Session.cpp, between the threads that fill
--                         it and the thread of `sender`, as a step relation
--   Virtual, Virtual/*    U/src/virtual_device/VirtualDeviceHandler.cpp: the dispatch of a command to
--                         a virtual device, its control requests and its descriptors. The virtual
--                         functions are parameters, the records `InterfaceHandler` and
--                         `DeviceHandler`. Virtual/Pool is U/include/utils/StringPool.h.
--   Msc, Msc/*            a virtual disk: U/src/virtual_device/devices/MscBulkOnlyHandler.cpp, its
--                         phases in Bulk and the SCSI commands in Scsi, over a record
--                         `StorageBackend` of operations with the laws `DiskLaws`; Image is the
--                         backend of storage_backends/RawImageBackend.cpp beside it. Host is the
--                         view of a host, with the commands it sends
--   Hid, Hid/*            U/src/virtual_device/HidVirtualInterfaceHandler.cpp: the input reports of a
--                         virtual HID device and the requests that wait for them
--   Requests, Requests/*  `EndpointRequestQueue` of U/include/virtual_device/
--                         VirtualInterfaceHandler.h: the requests that wait, for Hid and Cdc
--   Cdc, Cdc/*            U/src/virtual_device/CdcAcmVirtualInterfaceHandler.cpp and its header, a
--                         virtual serial port: Comm is the control interface, with its line coding
--                         and notifications, whose data are in Coding; Data is the data interface,
--                         over Ring. What a subclass overrides is an argument, or a `Notice`.
--                         Serial makes both the interfaces of a virtual device
--   Esp32, Esp32/*        components/usbipdcpp/src/esp32_handler/Esp32DeviceHandler.cpp: commands
--                         submitted to the device and unlinked in Submit, the call backs of the USB
--                         host library in Finish, and the order of their steps in Order, as a
--                         relation. The library's answers are arguments.
--   Prelude, Prelude/*    the numbers, lists and tests that the parts share
--
-- How they interact: a session reads a request with the readers of Protocol/Command, which take the
-- fixed part of a message through Stream and Wire, have the device handler allocate the transfer,
-- and read the data and the descriptors into it. To import a device, it takes it out of the lists
-- of Server; a command then goes to the endpoint that Device finds for it. The device queues its
-- replies in Sender, whose thread writes them by Protocol/Response. Where threads meet, in
-- Session/Ownership, Esp32 and Sender, a step is a stretch of code that no other thread can come
-- between, mostly that under one lock, and the theorems are about every order of the steps. A
-- virtual device is such a device: Virtual answers its control requests itself and passes the bulk
-- transfers of a disk on to Msc, which keeps its data behind the interface of a storage backend.
--
-- Bounds: integers are natural numbers with their wrap-around written out; `size_t` is that of the
-- ESP32, 32 bits. The builds define NDEBUG, so an `assert` is no code. Loops are structural
-- recursion on the number of rounds, which the code fixes before each loop. Only `send_rounds` of
-- Cdc/Data runs on fuel: each round answers a request, so the number of requests that wait is
-- enough, and the theorems on the buffer are about the loop run that far.
--
-- Not modelled: running out of memory (but the length limit of the descriptors' vector is),
-- printing and logging, the starting and ending of threads, the acceptor of the server, the class
-- requests of HID, the waiting of a blocking send on a serial port, of which the two critical
-- sections are events, chunked transfers to the ESP32, which its constructor switches off, failing
-- system calls of the image file, the libusb backend, the bindings, the examples, and the board's
-- own set-up code (Wi-Fi, storage, console), which is input and output.
pub mod Prelude
pub mod Virtual
pub mod Msc
pub mod Esp32
pub mod Requests
pub mod Hid
pub mod Cdc
pub mod Wire
pub mod Sender
pub mod Server
pub mod Session
pub mod SetupPacket
pub mod Stream
pub mod Protocol
pub mod Device
pub mod ReuseMap
pub mod Ring
