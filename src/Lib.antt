-- ===== src/Lib.antt =====
-- The Android Auto wireless dongle: the daemon `aawgd` and the bridge `aawgd-mqtt`, whose sources
-- stand in aa_wireless_dongle/package/aawg/src.
--
-- The program. A phone is led over Bluetooth to the Wi-Fi of the dongle, connects to it by TCP,
-- and the dongle copies the Android Auto stream between that connection and the USB gadget that
-- the car sees. `BluetoothHandler` (bluetoothHandler.cpp) connects to the phones and hands RFCOMM
-- connections to `AAWirelessLauncher` (bluetoothProfiles.cpp), which sends the settings of
-- `Config` (common.cpp). `AAWProxy` (proxyHandler.cpp) accepts the phone, stops the Bluetooth
-- retries, has `UsbManager` (usb.cpp) wait for the car, which learns of it from the events of
-- `UeventMonitor` (uevent.cpp), and forwards with two threads. `ControlSocketServer`
-- (controlSocket.cpp) takes the commands LIST, SWITCH and DISCONNECT for the Bluetooth handler
-- over a local socket, and the bridge (mqttBridge.cpp) turns MQTT messages into such commands and
-- publishes the answers to LIST.
--
-- The files.
--   Prelude, Text, Stream: what the components share. Text holds what the sources use of
--     `std::string`, on byte strings. Stream is a readable descriptor: a list of arrivals, which
--     may cut the bytes anywhere, and `read`, which takes at most what it is asked for from the
--     next arrival.
--   Proxy: `AAWProxy::readFully` and `readMessage`. Proxy/Forward: `forward` and `stopForwarding`
--     as two threads with program counters and shared flags; a schedule is a list of the thread
--     that makes the next step. Its children treat the order of the bytes (Order), whole frames
--     (Frames), how soon they are written (Pace), what the other side receives (Writes) and the
--     end of both threads (Shutdown).
--     Proxy/Forward/Signals divides a turn at `read` or `write` into getting into the call and
--     coming back from it, and adds the signals of `stopForwarding` and the joins of
--     `handleClient`; its children treat what the joins and the program counters have in common
--     (Invariant), a signal that is lost (Missed) or not (Freed, Stops), one that is sent to a joined
--     thread (Handles) and the end of all three (Rank, Joins), and Runs has single runs.
--     Proxy/Client: `startServer` and `handleClient` with the descriptors that they open and
--     close.
--   Profiles: `readFully`, `SendMessage` and `ReadMessage` of bluetoothProfiles.cpp, with the
--     wrap-around of the 16-bit sizes written out. Profiles/Launch: the handshake of `launch`,
--     and `NewConnection` with its descriptors. Profiles/SameReads compares its `readFully` with
--     that of proxyHandler.cpp.
--   Control: `jsonEscape`, `writeAll`, `getCmdlineTokenValue` and `handleCommand`. Control/Serve:
--     reading a command and the accept loop of `run`. Control/Socket has the whole of `run` with
--     its descriptors, Control/Machine what the answer to LIST asks of the machine, and
--     Control/Tokens the command line of the kernel. `Handler` is the interface to the Bluetooth
--     handler.
--   Mqtt: `unixSockRequest`, `publishStatus`, `parseCommandLine` and `onMessage`. Mqtt/EndToEnd
--     joins the bridge to the server, Mqtt/Settings has the settings and the start of its `main`,
--     and Mqtt/Shell follows the message of an update to the command line, and reads this as a
--     shell does.
--   Uevent: the parsing of a kernel message and the loop over the handlers in `monitorLoop`.
--   Usb: the gadgets and `enableDefaultAndWaitForAccessory`; Usb/Gadgets has what each operation
--     leaves bound, and Usb/Sessions the phases of a connection as an indexed type. Usb/Waits has
--     the handlers of all the waits in the list of the monitor, each with the number of its wait
--     in place of the weak pointer to its promise, and the sleep of `switchToAccessoryGadget`;
--     its children treat the loop over them (Loop), what the list holds (Present, Switched),
--     and whether the request of the car is heard (Heard).
--   Bluetooth: `listDevices`, `switchToDevice`, `connectDevice`, `disconnectAll` and the promise
--     of `retryConnectLoop`, over a record of what BlueZ answers. Bluetooth/Order, Sorted and
--     Listing treat the order of the device list, Bluetooth/Tries the devices that are tried, and
--     Bluetooth/Commands puts the handler behind the `Handler` of Control. Bluetooth/Adapter:
--     `init`, the profiles, `powerOn`, `powerOff` and the advertisement
--     (bluetoothAdvertisement.cpp), as the list of the calls that they make.
--   Config: the settings of common.cpp as functions of the environment, the interfaces and two
--     files. Config/Port follows one of them to the server of Proxy/Client and to the phone.
--   Daemon: `main` of aawgd.cpp, the thread of `handleClient`, the thread of `retryConnectLoop`,
--     the thread of `monitorLoop`, the commands and the events of the kernel, as a step relation:
--     each thread is a program counter, and a step ends at the next access to what the threads
--     share, which is the promise of the retries, the power of the adapter and the USB manager.
--     Its children treat the order of the threads (Run, Join), the exception (Crash), the power
--     (Power), the properties that follow `main` and the proxy from place to place
--     (Places, Phases), among them what the list of handlers holds (Listening) and where the
--     gadgets are (UsbFirst, Timely), the way to a forwarded connection (Progress) and the way
--     back to the head of the loop, which every fair schedule takes (Rank, Fair). Runs has single
--     runs.
-- The modules named Tests apply the theorems at concrete inputs.
--
-- Fuel. `read_fully_loop` of Proxy and of Profiles takes the number of bytes asked for, since each
-- round but the last takes a byte; with none left, nothing is left to read. `parse_loop` takes the
-- length of the message for the same reason. `await_start_response`, `read_line_loop` and
-- `read_answer_loop` take the number of bytes that the stream delivers and one; running out is a
-- result of its own there.
--
-- Parameters. The kernel (`read`, `write`, `accept`), BlueZ behind D-Bus, the generated protobuf
-- code and what the system says of itself are arguments. Where a theorem needs BlueZ to work as
-- documented, the record `Documented` of Bluetooth/Handover says what that is. A `write` to a
-- connection that the other side has closed is taken to return an error; `SIGPIPE`, which the
-- sources leave as it is, is not modelled. A client of the control socket that stays silent is not
-- modelled either: what a stream delivers ends. In Bluetooth/Adapter each call of BlueZ is taken to
-- succeed, among them the registration of the advertisement.
--
-- The threads of the proxy. In Proxy/Forward a step at a call is the return from it. The model in
-- Proxy/Forward/Signals begins with both threads started and `handleClient` at its first join, takes
-- a signal to end the call that the thread is in with EINTR, and has `none` where the program
-- calls `pthread_kill` for a thread that was joined. `stopForwarding` is one step of it.
--
-- The threads of the daemon. A test and a write of the promise of the retries count as one step,
-- and so do the handlers of an event, except that the sleep between the two writes of
-- `switchToAccessoryGadget` ends a step; the calls between two such points are not divided. A
-- D-Bus call that throws where nothing catches it is a step of its own, which ends the daemon. The
-- daemon has no descriptors: whether `startServer` succeeds is a choice. Where the last handler of
-- the list removes itself, the loop of `monitorLoop` increments the end iterator, which is
-- undefined; Usb/Waits takes the loop to end there, and Uevent has `none` for it. No result says
-- what the list is behind the request of the car, but the properties of later steps of the daemon
-- rest on it.
--
-- Not modelled: log lines and `errno`, which only log lines read; the other sleeps; the singletons;
-- D-Bus objects beyond the calls that are made of them, with the class boilerplate of
-- bluetoothProfiles.cpp; the init scripts, the update scripts and the kernel patches, which are not
-- part of these programs.
pub mod Prelude
pub mod Text
pub mod Stream
pub mod Config
pub mod Mqtt
pub mod Profiles
pub mod Control
pub mod Proxy
pub mod Uevent
pub mod Usb
pub mod Bluetooth
pub mod Daemon
