-- ===== src/Lib.antt =====
-- urfkill is a daemon that controls the radios of a machine. The kernel reports radios and their
-- blocks on /dev/rfkill; modems come from oFono; users block and unblock them over D-Bus or with
-- keys. This library models the daemon and states what makes its parts correct.
--
-- The parts, from the bottom up:
--
-- Utils models src/urf-utils.h and src/urf-utils.c: the states of a switch, ordered as the enum
-- is, and the names of the rfkill types.
--
-- Store holds the objects of the daemon. A device is a reference into a heap, because the list of
-- the arbitrator and the lists of the killswitches share the objects. The output of the store is
-- all that leaves the daemon: writes to /dev/rfkill, calls of oFono and signals, the latest
-- first. The record Outside is what the kernel, udev and the bus answer, given that output; it is
-- a parameter everywhere.
--
-- Device models src/urf-device.c. Device/Kernel is src/urf-device-kernel.c and Device/Ofono is
-- src/urf-device-ofono.c. Device/Register is the making of a device and its registration on the
-- bus: GDBus refuses a path that has an object, nothing in the program takes a registration back,
-- and the program asserts that it is not refused, so that making a device of an index a second
-- time is a fault. The paths that are taken are those of the devices in the heap. Device/Laws
-- says which parts of a device its operations leave, Device/Modem what the signals of oFono do.
-- Device/Udev is the search for the attributes of a radio in a list of udev's devices; the record
-- Outside has what it finds.
--
-- Killswitch models src/urf-killswitch.c: the switch of one type, whose state its devices add up
-- to (Killswitch/Aggregate), and which blocks all of them (Killswitch/Block);
-- Killswitch/Registration is its path and its place on the bus.
--
-- Config models src/urf-config.c: the options, and the key file that keeps the state of each
-- type. Config/Rules has the words and rules of a hardware profile, with get_dmi_info of
-- src/urf-utils.c, Config/Profile the handlers that expat calls while it reads one, and
-- Config/Loading the order in which the saved profile, the profiles of the hardware and the
-- configuration file give the options, with what is saved. GLib's GKeyFile is the interface
-- KeyFile (reading, writing, and the laws that a value written is read back and other groups keep
-- theirs) and KeyFileText (files as texts); GLib's functions on texts are the record Texts, and
-- expat is the list of the calls that it makes. Config/Matching, Config/Reading and
-- Config/Precedence hold the theorems; the specification of the handlers is a recursion over the
-- tree of the file.
--
-- Arbitrator models src/urf-arbitrator.c: the list of devices, the array of killswitches and the
-- operations on them; Arbitrator/Events has the events of /dev/rfkill, at startup and later. An
-- operation that may fault (read through NULL, or fail an assertion) returns an Option, where
-- none is the fault. Arbitrator/Keeps says what the operations leave, Arbitrator/Invariant is the
-- well-formedness of the arbitrator: each switch lists exactly the devices of its type, and there
-- is no switch of type ALL. Arbitrator/Devices, Arbitrator/Block, Arbitrator/BlockIndex,
-- Arbitrator/Lookup, Arbitrator/Table, Arbitrator/Steps, Arbitrator/Register, Arbitrator/Refine
-- and Arbitrator/Startup prove what the operations do, and Arbitrator/FlightMode,
-- Arbitrator/FlightLoop and Arbitrator/Restore what the flight mode does; the writes and calls
-- that a block sends are in Device/Orders, Killswitch/Orders and Arbitrator/Orders. The
-- specification of the events is the table of Arbitrator/Table. Arbitrator/Outputs and
-- Arbitrator/Announced compare what a listener to the output knows with that table.
--
-- Session models src/urf-session-checker-consolekit.c and src/urf-seat-consolekit.c: which
-- sessions inhibit the keys. The answers of the bus and of ConsoleKit are the record Bus. The
-- loop that draws a cookie runs over the list of the numbers drawn, and one number that is free
-- is enough.
--
-- Session/Logind models src/urf-session-checker-logind.c and src/urf-seat-logind.c, which keep
-- their inhibitors and seats by the same code as those of ConsoleKit, and Session/History runs it
-- over what it hears; Session/Consolekit does so for ConsoleKit. The start of the checker, which
-- ends the program where a proxy cannot be made, is modelled with that end. Session/Absent is
-- src/urf-session-checker-none.c. Session/Draws shows that more numbers than inhibitors hold a
-- free cookie, so that the loop that draws one ends.
--
-- Input models src/urf-input.c: the keyboard that is watched (Input/Choice) and the keys that it
-- emits. The devices that udev lists and the events that are read are parameters.
--
-- OfonoManager models src/urf-ofono-manager.c: the modems of oFono, which become devices of the
-- arbitrator. Its specification (OfonoManager/Refine) is the list of the paths of the modems.
-- modem_idx is a gint, and a run that counts over its end is a fault. OfonoManager/Restart is
-- about oFono that vanishes.
--
-- Daemon models src/urf-daemon.c and src/urf-polkit.c: the D-Bus methods, their authorization and
-- the keys. What polkit says of a caller is a parameter. The reply to a call is part of the
-- state, so that a call without an answer shows. Daemon/Rights is about the callers, Daemon/Keys
-- about a key, and Daemon/Pressing joins Input to the daemon. Daemon/Start is the making and the
-- start of the daemon. Daemon/Announce has the callbacks that put the signals of the arbitrator
-- on the bus; the emission itself, which only warns when it fails, is left out.
--
-- Daemon/Properties has the handlers of the properties of all objects, with the introspection
-- data, Daemon/Properties/Objects what GObject reads of them, and Daemon/Properties/Typed that
-- the handlers keep to the data. Device/Names has the names that they give. GDBus, which calls
-- the handlers, is not modelled.
--
-- Client models liburfkill-glib/urf-client.c and liburfkill-glib/urf-device.c: the list of
-- devices that a program which uses the library sees (Client/Paths, Client/Known). What the bus
-- answers is the record Remote. Client/Calls has the calls of the daemon, which go through a bus
-- that is a parameter; Client/Calls/Answers joins them to the daemon, and Client/Mirror the
-- devices of a client to those of the daemon. Client/Sync and Client/Following join the signals
-- that a client hears to the events of the kernel. What is relied on of the bus and of GDBus are
-- the records Delivers and Serves. Client/Objects has the GObject properties of the library's
-- client and devices, and Client/Objects/Reads compares them with the daemon's. Client/Switches
-- models liburfkill-glib/urf-killswitch.c, with the array of its objects (Client/Switches/Kept)
-- and the states that one hears of (Client/Switches/Heard).
--
-- Main models src/urf-main.c. The system calls that change the user are parameters, and what the
-- program does is the list of its actions (Main/Privileges).
--
-- Loops over lists are structural recursion; a number of 32 bits that is stored in a gint wraps
-- as C does (Prelude/Ints). A run that the C program ends by g_error or an assertion is a fault.
--
-- Not modelled: GDBus but for the refusal above (the two registrations of a device, one for each
-- of its interfaces, are made and refused together); the registration of the killswitches and of
-- the daemon itself, which are made once; the emission of GObject signals, which are calls of
-- GLib; the end of the program by g_error where the proxy of a seat cannot be made
-- (src/urf-seat-consolekit.c and src/urf-seat-logind.c); udev, whose lists of devices are
-- parameters; the parsing of the command line, which GLib does; and the programs in tests, which
-- call the library and print.
pub mod Prelude
pub mod Utils
pub mod Store
pub mod Device
pub mod Killswitch
pub mod Client
pub mod Config
pub mod Input
pub mod Arbitrator
pub mod OfonoManager
pub mod Session
pub mod Daemon
pub mod Main
pub mod Tests
