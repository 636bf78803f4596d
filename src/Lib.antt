-- ===== src/Lib.antt =====
-- Immersive-2's PC host: it captures monitors, encodes them and streams them to VR headsets, which
-- select monitors and send mouse and keyboard input back. This library models the host's network
-- server, what its main program does with the headsets' requests, the worker that streams one
-- monitor, and the settings panel, a small web server on 127.0.0.1.
--
-- The parts and how they interact. A headset opens a TCP control connection; the accept loop of the
-- server gives it a session (Server.Session), whose rounds read one message each (Server.Stream)
-- and serve nothing but a HELLO until its PIN passes (Server.Auth). A paired client's requests
-- become callbacks into the main program (Host). Video frames go to a client as UDP packets with
-- parity (Server.Video) or in its TCP stream, under a flow control that its FRAME_ACKs feed
-- (Server.Flow) and an adaptive bitrate (Server.Rate). Broadcasts, control messages and the
-- handshake's answers are in Server.Sending and Server.Media; a broadcast on the LAN is answered in
-- Server.Discovery. A selected monitor gets a worker (Host.Worker), which captures, scales
-- (Host.Scaling), encodes and sends its frames at a pace that follows the link. The panel
-- (Ui.Panel) serves HTTP requests (Ui.Http, Ui.Form), changes the settings and keeps them in
-- host.conf (Ui.Conf). A thread keeps the USB tunnel of the headsets on a cable (Usb).
--
-- The files, their code and the correspondence:
--   Base            shared helpers: lists and Boolean tests on native numbers, fixed widths and
--                   little-endian bytes, association lists, times in nanoseconds, XOR of bits.
--   Protocol        protocol/protocol.h: constants, MessageType (message_type is the cast of a
--                   byte), each packed struct as a record with encode_ and decode_ functions of
--                   its bytes (Protocol.Messages), compute_chunk_count (Protocol.Chunks).
--   Server.Video    host/src/network/server.cpp, send_video_packet's chunks and parity: chunk_loop
--                   and parity_loop are its two loops, frame_packets the datagrams in order.
--   Server.Auth     check_pin, AuthState, the kicked set; judge_hello is the verdict on a HELLO.
--   Server.Rate     ClientState::RateControl and rate_on_sent, over an abstract float.
--   Server.Flow     ClientState::FlowState, tcp_unacked, the bookkeeping of send_video_packet
--                   (admit_frame), send_stream_start (start_stream), FRAME_ACK (on_frame_ack).
--   Server.Stream   recv_exact, send_tcp, the reading of a control message.
--   Server.State    ClientState and the members of NetworkServer; an Effect is what a call makes
--                   the outside see: bytes on a socket, a shutdown, a datagram, a callback, a pause.
--   Server.Sending  send_control_message, send_monitor_list, send_stream_start, send_media_locked,
--                   broadcast_udp, set_host_flags, send_reject. Server.Media: send_video_packet.
--   Server.Session  tcp_accept_loop on an accepted socket (accept_client), handle_client round by
--                   round (session_round), its end, disconnect_client, set_pin.
--   Server.Discovery  discovery_loop on one datagram.
--   Host.Input      host/src/main.cpp: the mouse and keyboard handlers and release_input.
--   Host.Screen     "Main screen off": the lease and the main loop's watch over it.
--   Host.Streams    apply_selection_locked, stop_all_locked, the stream configuration, the
--                   keyframe request and a client that leaves.
--   Host.Displays   the virtual display handlers, with the driver's answers as arguments.
--   Host.Audio      the audio thread's packets of a captured frame.
--   Host.Scaling    scale_bgra_bilinear on images that are lists of bytes.
--   Host.Mjpeg      host/src/encoder/encoder.cpp: MjpegEncoder, its pixels and its packets.
--   Host.Worker     stream_worker: the settings it derives (output size, ceilings, buffer);
--                   Host.Worker.Codec: the codec it falls back to (choose_codec), fit_h264;
--                   Host.Worker.Tuning: retune (retune_encoder); Host.Worker.Loop: one round of its
--                   loop (worker_round), and the frames and keyframe demands it lets out.
--   Ui.Conf         host/src/ui/ui_common.cpp: host.conf read (read_lines, load_host_conf) and
--                   written (save_host_conf_key); host/src/ui/host_ui.h: Settings.
--   Ui.Form         host/src/ui/panel.cpp: url_decode, parse_form, same_secret.
--   Ui.Http         recv_request on the pieces that recv() returns.
--   Ui.Actions      act: what a POST changes, the new settings and files, and the calls into the
--                   server and the main program.
--   Ui.Panel        handle: a request to an answer, its origin and its login checked.
--   Usb             host/src/usb/adb_reverse.cpp: keep_adb_reverse, a round on the answers of adb.
--   Tests           concrete inputs.
--
-- State is passed explicitly, as a record. A section that a mutex guards in the source is one step,
-- and threads are sequences of such steps: Server.Session.Capacity interleaves those of all
-- threads, and Server.Session.Handshake lets other threads change the server between two rounds of
-- a session. Sockets, addresses and times are numbers; the steady clock is an argument.
--
-- Parameters stand for what is not in this repository: the sockets of the system (Kernel: how many
-- bytes one recv() or send() moves; Net: whether a write of given bytes succeeds), single and
-- double precision numbers (Float32, Double64, Doubles; Share: the products with the link's share),
-- the answers of the display driver, of the encoder (Encoder), adb (Adb) and of what the panel asks
-- (Answers). The JPEG writer is Jpeg. What a capture yields, and the packets a frame is encoded to,
-- are arguments of each round (Round).
--
-- Loops are structural recursions over the data they walk. recv_exact and send_tcp recurse on fuel,
-- one unit for each byte and one for the last test: each round moves a byte or ends the loop.
--
-- Not modelled: start() and stop(), socket options and the reaping of threads; how a worker starts
-- and restarts its capture; the capture, audio and input backends, the encoders but the one for
-- MJPEG; the panel's state in JSON, its window and the tray icons; the search for adb; the
-- headset's own application. Logging is left out throughout.
pub mod Base
pub mod Protocol
pub mod Server
pub mod Tests
pub mod Host
pub mod Ui
pub mod Usb
