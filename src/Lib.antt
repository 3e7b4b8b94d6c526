-- ===== src/Lib.antt =====
-- rust-xpra, the Xpra client written in Rust: a model of its protocol and client code, and proofs.
--
-- The client connects to a server over TCP, a Unix socket, TLS, a WebSocket or ssh, receives framed
-- packets from it and draws what they hold. The sources are the folder `src` of the repository.
--
-- The parts and their models:
-- * Net/Uri is src/net/uri.rs: `parse_target` reads the target on the command line.
-- * Net/Ssh is src/net/ssh.rs: the arguments and the quoted remote command of the ssh transport,
--   which take the address, the user and the display that Net/Uri gives.
-- * Net/Io is src/net/io.rs: `read_packet` takes frames off a stream and collects the chunks that
--   come before a main packet; `write_packet` writes one.
-- * Net/Packet is src/net/packet.rs and src/net/serde.rs: `parse_packet` makes a packet of what
--   Net/Io read, and the accessors give its fields.
-- * Net/WebSocket is src/net/websocket.rs: `fill_buffer` puts messages together from frames, `read`
--   gives their bytes to Net/Io as a stream, and `write` sends a frame with a mask.
-- * Client/Mmap is src/client/mmap.rs: the memory that client and server share, its tokens, the
--   capabilities that turn it on, and the images that a draw packet's chunks hold in it.
-- * Client/Audio is src/client/audio.rs: the Opus packets, the state of their stream, and the queue
--   of decoded samples.
-- * Client/Monitors, Client/Draw, Client/Json and Client/Session are src/client/client.rs: the
--   monitors, the decode thread with src/client/draw_decoder.rs, the packets that are written,
--   and the session:
--   its state, its handlers and `user_event`, which takes a packet of Net/Packet to its handler.
--   Client/Draw reads the images of Client/Mmap; what it posts is a packet that the session takes.
-- * Client/ConnectDialog is src/client/connect_dialog.rs: the form that asks for a target, its keys
--   and clicks, and the URI that it submits, which Net/Uri reads.
-- * Main is src/main.rs: the arguments, `connect` over the calls of the transports, and the handler
--   of the event loop, which first shows the form of Client/ConnectDialog and then is a session of
--   Client/Session. `run` goes from the arguments to the exit code.
-- * Client/Pinentry is src/client/pinentry.rs, the lines that are exchanged with the program that asks
--   for a password; Client/ClipboardThread is src/client/clipboard.rs, the thread that tells the
--   session of new texts; Client/Logging is src/client/remote_logging.rs, the date of a log line and
--   the packet that a record posts; Client/Painting is src/client/window.rs, the pixels of a window.
-- * Net/Digest is src/net/sha256.rs, src/net/sha1.rs and src/net/rand.rs, with which the session
--   answers a challenge.
-- * Prelude has what they share: lists with positions, texts as lists of bytes, results, the integers
--   of the machine and bitwise arithmetic on them.
--
-- Names are the source's. A function that can fail gives a `Result` with the source's errors as
-- constructors; where the source panics the model gives `none`, and the WebSocket, whose `none` is fuel
-- that has run out, the constructor `capacity_overflow`. A text is the list of its utf-8
-- bytes, in the form and on the command line of its characters, a HashMap is an association
-- list, a stream is the list of the bytes that the peer sends
-- before it closes. Machine integers are natural numbers with `% 2 ^ w` where the source wraps.
--
-- Loops are structural recursion. The receive loop of `read_packet` runs on fuel: four rounds, since
-- each round but the last adds one chunk under a new index and three chunks are the most that are
-- kept. A fifth round would give `none`, which is proved never to happen. `fill_buffer` has one
-- round more than its stream has bytes, and each round takes two bytes at least.
-- The loop that pads a message for a digest has 64 rounds, and at most 63 zeros are missing.
--
-- A handler of the session is an action on its state, a record with the list of what was done to the
-- outside: packets written, packets posted to the event loop, threads, prompts and calls of windows.
-- What the outside answers during an event is a record `Env`. A run is any sequence of packets and
-- window events, each with an environment of its own, and of what the user does at the password
-- prompt. What a log line reads of a packet is read, as where its level is logged.
--
-- A handler of the event loop gives a new state of the application, or none where the session
-- panics. The thread that connects is an outcome that is fixed when it starts and is handed over when
-- its packet arrives. The form's layout takes the scaling by an f64 as a function, and computes in
-- i32 as a release build does, where it wraps; painting does too, with its products of u32 and usize.
-- The pixels of a window before a packet is painted on it are a part of `Env`: the session calls the
-- painting of Client/Painting, which can panic, and does not carry its result to the next event.
--
-- Parameters stand for code of other crates: LZ4 decompression, the YAML loader, the utf-8 test,
-- base64 and the image decoders; for the mask keys that the WebSocket draws at random and the failures
-- of its writes; for the handshakes of TLS, of the WebSocket and of ssh, which make streams or fail;
-- and for the calls of the operating system and of winit. Not modelled are what is compiled on Windows only, the tray,
-- the drawing of the dialogs and its fonts, audio output and the arithmetic on f32, TLS, the
-- WebSocket handshake and the threads themselves.
pub mod Prelude
pub mod Net
pub mod Client
pub mod Main
