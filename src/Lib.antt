-- ===== src/Lib.antt =====
-- A face-tracking camera terminal (terminal/) and the desktop client that watches and steers it
-- (pc-client/). The terminal serves video, files and gimbal commands over the SEC1 protocol, on raw
-- TCP or inside WebSocket frames; each client has a session thread, and sessions reach the control
-- loop of the gimbal through a queue of commands.
--
-- Base: lists measured by native numbers, bytes, bit operations and text search, with their lemmas.
-- Protocol (terminal/src/net/Protocol.h): numbers, headers and messages of SEC1 as byte lists.
-- Stream: the loop over a receive buffer, which ClientSession::readAndDispatch and
--   TcpClient::processBuffer share; the handler and the limit are arguments.
-- Json (terminal/src/net/MiniJson.h), Auth (terminal/src/net/Auth.h): escaping, lookups, the token.
-- Files (terminal/src/file/FileManager.cpp): the capture directory, over a record of calls on a disk.
-- Core (terminal/src/core): the command queue, the frame hub, the client registry, the tracking
--   state. Every locked method is one step.
-- Session (terminal/src/net/ClientSession.cpp): the state of a session and its replies; Dispatch:
--   handleMessage and readAndDispatch; Run: the poll loop, one `Tick` for each pass; Confined: the
--   disk below a session.
-- Server (terminal/src/net/TcpServer.cpp): accepts on several listeners as a step
--   relation; Listener: one of them from its socket to its end.
-- Websocket (terminal/src/net/WebSocketProto.h): frames, SHA-1, base64; Conn and Handshake
--   (terminal/src/net/WebSocketConn.cpp): a connection over a byte stream; Conn.Calls: calls of
--   `recv` one after another; Handshake.Lines: a request as a list of lines.
-- Gimbal (terminal/src/servo/PanTiltTracker.cpp), Control (terminal/src/app/BusinessThread.cpp),
--   Servo (terminal/src/servo/ServoController.cpp): from commands and faces to PWM writes.
-- Sockets (terminal/src/net/SocketUtil.h, terminal/src/net/TlsConn.cpp): whole writes, TLS reads;
--   Tls: the life of a context and of a session as OpenSSL calls; Reads: what a TLS read takes; Raw
--   (terminal/src/net/IByteStream.h, TcpConn.h): the interface of a stream, and a plain socket.
-- Vision (terminal/src/app/VisionThread.cpp, terminal/src/vision/FaceDetector.cpp): the vision loop.
-- Video: the vision loop, the hub and the session put together, turn by turn.
-- Client (pc-client/src/net/TcpClient.cpp): the client's requests; Receive: what it does with bytes.
-- Remote: the client's commands, the terminal's queue and its control loop put together; Download:
--   a request for a file and its answer.
-- Ui (pc-client/src/ui): the window; Panel, Browser and Window hold the widgets, Inputs the wiring.
-- Display (terminal/src/display/Framebuffer.cpp): the screen's memory; Loop
--   (terminal/src/app/DisplayThread.cpp): the display thread.
-- Camera (terminal/src/capture/V4L2Camera.cpp): the driver over a log of kernel calls; Driver: what
--   Video4Linux documents of the answers.
-- Desktop (terminal/src/servo/StubServo.h, terminal/src/capture/HostCamera.cpp,
--   terminal/src/display/WindowDisplay.cpp): what stands in for the devices on a desktop.
-- Main (terminal/src/main.cpp): the program from start to end as the calls that it makes; Settings
--   (terminal/src/core/Config.h): what it is set to.
-- Tests: runs of the theorems on concrete inputs, and known answers.
--
-- A byte string is a list of numbers, and a theorem asks that they are bytes where that matters. A
-- buffer with an offset is the rest of a list. Unsigned arithmetic is reduced by `% 2 ^ w` where it can
-- wrap. Sockets, files and devices are logs of what was done to them; what they answer, the clock
-- and the scheduling are arguments. Code outside the repository (Qt, OpenCV, the file system, strtod,
-- double arithmetic) is a parameter. The loop over a buffer runs on fuel: the buffer's length and one,
-- which is enough since every message takes a header of 12 bytes; so does the one over WebSocket
-- frames, each of two bytes at least; SHA-1's padding runs on 64 rounds, one for each residue. The
-- poll loop and the handshake follow a list of what happens, and stop where it ends.
--
-- Not modelled: what OpenCV and OpenSSL do, the socket system calls, the frame rate of the vision
-- thread, layout and painting of the windows, logging, and the mobile client.
pub mod Base
pub mod Protocol
pub mod Stream
pub mod Json
pub mod Auth
pub mod Files
pub mod Core
pub mod Session
pub mod Client
pub mod Websocket
pub mod Remote
pub mod Video
pub mod Ui
pub mod Server
pub mod Sockets
pub mod Gimbal
pub mod Main
pub mod Vision
pub mod Camera
pub mod Desktop
pub mod Display
pub mod Tests
