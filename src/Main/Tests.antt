-- ===== src/Main/Tests.antt =====
-- The tests of main.rs, and its theorems at concrete command lines and events.
use mathlib.Core.List.{Permᴰ}
use rust_xpra.Prelude.{
  ◌≡◌, refl, true, false, not, ◌&&◌, if◌then◌else◌, drop, Option, none, some, List, [], ◌∷◌, Bytes,
  codes, ok, err,
}
use rust_xpra.Prelude.Int.{pos}
use rust_xpra.Prelude.Decimal.{decimal}
use rust_xpra.Net.Uri.{
  Target, tcp, tls, socket, parse_target, parse_uri, network_target, parse_scheme, direct_target,
}
use rust_xpra.Client.Session.{
  ◌>>=◌, assign, quit, exited, internal_error, connection_failed, Session, Env, argument_mismatch,
  authentication_failed, new as new_session,
}
use rust_xpra.Client.Painting.{create_surface}
use rust_xpra.Client.ConnectDialog.{
  ConnectDialog, ConnectDetails, connect_action, no_status, error_status, on_host, draw,
}
use rust_xpra.Client.ConnectDialog.Form.{
  submit, connect_details, build_uri, authority_of, bracketed, port_of, trim, non_empty,
  has_whitespace,
}
use rust_xpra.Client.ConnectDialog.Keys.{handle_key, key, edit_key}
use rust_xpra.Client.Session.Challenge.{cancel_auth}
use rust_xpra.Client.Session.Input.{named, enter}
use rust_xpra.Main.{
  is_help, is_version, Options, unrecognized_option, more_than_one_target, parse_arg, add_target,
  parse_from, parse_args, any_arg,
}
use rust_xpra.Main.Orders.{parse_args_any_order, parse_args_ok}
use rust_xpra.Main.Connect.{
  Streams, Calls, Connection, tcp_connection, ConnectError, tcp_failed, insecure_unused, connect,
  connect_scheme, tcp_connect,
}
use rust_xpra.Main.Exits.{Outcome, connection_scheme, may_fail, connect-Outcome}
use rust_xpra.Main.App.{prompt, session, App, AppEnv, new, new_client, exit_code}
use rust_xpra.Main.Events.{
  keyboard_input, for_form, for_password, redraw_requested, app_window_event, window_event_in,
  client_event,
}
use rust_xpra.Main.Run.{
  LoopEvent, RunEnv, with_session, run, run_parsed, run_target, run_connected, run_loop, on_resumed,
  on_packet, on_window, app_event, run_app, loop_ends, any_exited, any_loop_exited,
}
use rust_xpra.Main.Attempts.{IsNext, IfSome}
use rust_xpra.Main.OneAttempt.{app_event-IsNext}
use rust_xpra.Main.Sessions.{connect_result_packet, form_connects, form_fails}
use rust_xpra.Main.ExitCodes.{run-exit_code}
use rust_xpra.Client.Session.Dispatch.{resumed}
use rust_xpra.Main.Args.{IsAccepted, parse_args-IsAccepted}

abbrev argv : List Bytes
argv = codes "xpra" ∷ codes "--ssl-insecure" ∷ codes "ssl://example.com:10000/" ∷ []

abbrev both : Options
both = record { target = some (codes "ssl://example.com:10000/"); ssl_insecure = true }

parsed : parse_args argv ≡ ok both
unfolding parse_args parse_from parse_arg add_target
parsed = refl

no_arguments : parse_args (codes "xpra" ∷ []) ≡ ok (record { target = none; ssl_insecure = false })
unfolding parse_args parse_from
no_arguments = refl

misspelled_options_are_rejected :
    (parse_args (codes "xpra" ∷ codes "-ssl-insecure" ∷ [])
      ≡ err (unrecognized_option (codes "-ssl-insecure")))
    × (parse_args (codes "xpra" ∷ codes "--ssl-insecure=yes" ∷ [])
        ≡ err (unrecognized_option (codes "--ssl-insecure=yes")))
unfolding parse_args parse_from parse_arg add_target
misspelled_options_are_rejected = (refl, refl)

only_one_target_is_accepted :
    parse_args (codes "xpra" ∷ codes "a" ∷ codes "b" ∷ [])
    ≡ err (more_than_one_target (codes "a") (codes "b"))
unfolding parse_args parse_from parse_arg add_target
only_one_target_is_accepted = refl

parse_args-IsAccepted_example :
    IsAccepted (codes "--ssl-insecure" ∷ codes "ssl://example.com:10000/" ∷ []) both
parse_args-IsAccepted_example = parse_args-IsAccepted argv both parsed

parse_args_ok_example : parse_args argv ≡ ok both
unfolding any_arg
parse_args_ok_example =
    parse_args_ok argv both
      (record { only_options = refl; only_target = refl; insecure_iff = refl })

parse_args_any_order_example :
    parse_args (codes "xpra" ∷ codes "ssl://example.com:10000/" ∷ codes "--ssl-insecure" ∷ [])
    ≡ ok both
parse_args_any_order_example =
    parse_args_any_order (codes "xpra")
      (codes "--ssl-insecure" ∷ codes "ssl://example.com:10000/" ∷ [])
      (codes "ssl://example.com:10000/" ∷ codes "--ssl-insecure" ∷ []) both (Permᴰ.swap refl refl)
      parsed

abbrev streams : Streams
streams = record {
  TcpStream = Unit;
  TlsStream = Unit;
  WsStream = Unit;
  WssStream = Unit;
  SshStream = Unit;
  UnixStream = Unit;
}

-- Every call but a handshake is made.
abbrev calls : Calls streams
calls = record {
  tcp_stream = λ address. ok tt;
  tls_stream = λ stream host insecure. err (codes "handshake");
  ws_stream = λ stream host path. ok tt;
  wss_stream = λ stream host path. ok tt;
  ssh_stream = λ address user display. ok tt;
  unix_stream = λ path. ok tt;
}

abbrev local : Target
local = record { scheme = tcp; address = codes "h:1"; path = codes "/"; username = none }

abbrev tcp_made : Connection streams
tcp_made = tcp_connection tt

connected : connect calls local false ≡ ok tcp_made
unfolding connect connect_scheme tcp_connect
connected = refl

ssl_insecure_is_rejected_for_socket_targets :
    connect calls
      (record { scheme = socket; address = codes "/s"; path = []; username = none })
      true
    ≡ err (record { code = argument_mismatch; message = insecure_unused })
unfolding connect
ssl_insecure_is_rejected_for_socket_targets = refl

connect-Outcome_example :
    Outcome
      (λ (c : Connection streams). connection_scheme c ≡ tls)
      (λ (e : ConnectError). may_fail tls true e.code ≡ true)
      (connect calls (record local { scheme = tls }) true)
connect-Outcome_example = connect-Outcome calls (record local { scheme = tls }) true

abbrev client : Env
client = record {
  send_packet = λ packet. none;
  elapsed_ms = pos 1000;
  secure_random_bytes = λ n. [];
  base64 = λ b. some b;
  from_utf8_lossy = λ b. b;
  platform = codes "linux";
  user_variable = none;
  username_variable = none;
  hostname = none;
  machine_uid = codes "id";
  local_monitors = [];
  mmap_path = [];
  xpra_password = none;
  find_pinentry = none;
  dialog_opens = true;
  decoder_runs = true;
  creates_window = λ wid. true;
  surface = λ wid. create_surface 1 1;
  current_monitor = λ wid. none;
  grabs = λ wid g. true;
  has_focus = λ wid. false;
  inner_size = λ wid. (1, 1);
  get_geometry = λ wid. (pos 0, pos 0, 1, 1);
  decode_png_rgba = λ b. none;
  is_cursor = λ c. false;
  is_icon = λ w h b. false;
}

abbrev env : AppEnv streams
env = record {
  display = record { inner_size = (420, 270); scaled = λ z. z };
  context_opens = true;
  dialog_opens = true;
  calls = calls;
  received = true;
  connect_text = λ m. codes "failed";
  uri_text = λ e. codes "invalid";
  client = client;
}

abbrev form : ConnectDialog
form = record {
  width = 420;
  height = 270;
  px = λ z. z;
  protocol = 0;
  dropdown = false;
  host = codes "h";
  port = codes "1";
  username = [];
  password = codes "secret";
  focus = on_host;
  shift = false;
  pointer = (pos 0, pos 0);
  status = no_status;
}

abbrev details : ConnectDetails
details = record { uri = codes "tcp://h:1/"; username = none; password = some (codes "secret") }

abbrev app : App streams
app = record {
  state = prompt (some form);
  context = true;
  mmap = none;
  ssl_insecure = false;
  pending = none;
  connect_rx = none;
  exit_code = none;
  effects = [];
}

submitted : handle_key env.display true (named enter) none form ≡ (connect_action details, form)
unfolding handle_key key edit_key submit connect_details build_uri authority_of bracketed port_of
    trim non_empty has_whitespace decimal draw
submitted = refl

read_back : parse_target details.uri ≡ ok local
unfolding parse_target parse_uri network_target parse_scheme direct_target
read_back = refl

form_connects_example :
    (middle : App streams) × (last : App streams) × (s : Session) × (app_event env
        (on_window (for_form (keyboard_input false true (named enter) none)))
        app
      ≡ some middle)
    × (app_event env (on_packet connect_result_packet) middle ≡ some last)
    × (last.state ≡ session tcp_made details.uri s)
    × (resumed env.client
          (record (new_session none) { username = none; password = some (codes "secret") })
        ≡ some (tt, s))
form_connects_example =
    form_connects env env app form form (named enter) none details local tcp_made submitted
      read_back connected refl

-- Where nothing listens.
abbrev refusing : AppEnv streams
refusing = record env { calls = record calls { tcp_stream = λ address. err (codes "refused") } }

refused :
    connect refusing.calls local false
    ≡ err
        (record { code = connection_failed; message = tcp_failed (codes "h:1") (codes "refused") })
unfolding connect connect_scheme tcp_connect
refused = refl

form_fails_example :
    (middle : App streams) × (last : App streams) × (app_event refusing
        (on_window (for_form (keyboard_input false true (named enter) none)))
        app
      ≡ some middle)
    × (app_event env (on_packet connect_result_packet) middle ≡ some last)
    × (last.pending ≡ none)
    × (last.exit_code ≡ none)
    × (last.state
        ≡ prompt (some (draw env.display (record form { status = error_status (codes "failed") }))))
form_fails_example =
    form_fails refusing env app form form (named enter) none details local
      (record { code = connection_failed; message = tcp_failed (codes "h:1") (codes "refused") })
      submitted read_back refused refl

app_event-IsNext_example : IfSome (IsNext app) (app_event env on_resumed app)
app_event-IsNext_example =
    app_event-IsNext env on_resumed app (record { paired = refl; waiting = refl })

abbrev line : List Bytes
line = codes "xpra" ∷ codes "tcp://h:1/" ∷ []

abbrev named_target : Options
named_target = record { target = some (codes "tcp://h:1/"); ssl_insecure = false }

line_parsed : parse_args line ≡ ok named_target
unfolding parse_args parse_from parse_arg add_target
line_parsed = refl

-- The user cancels the password's dialog, and a click on the form of the past still comes.
abbrev cancels : AppEnv streams × LoopEvent
cancels = (env, on_window (for_password none))

abbrev late : AppEnv streams × LoopEvent
late = (env, on_window (for_form redraw_requested))

abbrev outside : RunEnv streams
outside = record {
  calls = calls;
  loop_builds = true;
  loop_fails = false;
  area = none;
  events = cancels ∷ late ∷ [];
}

abbrev started_with : Option (Connection streams × Bytes)
started_with = some (tcp_made, codes "tcp://h:1/")

abbrev over : App streams
over = record (with_session (new none false) started_with) {
  state =
      session tcp_made (codes "tcp://h:1/") (record (new_session none) {
        exit_code = some authentication_failed;
        effects = exited ∷ [];
      });
}

stopped : run_app (cancels ∷ []) (with_session (new none false) started_with) ≡ some over
unfolding run_app app_event app_window_event window_event_in client_event loop_ends any_exited
    any_loop_exited cancel_auth quit assign ◌>>=◌ new new_client
stopped = refl

cancelled_run : run outside line ≡ some authentication_failed
unfolding run run_parsed run_target run_connected run_loop any_arg parse_args parse_from parse_arg
    add_target parse_target parse_uri network_target parse_scheme direct_target connect
    connect_scheme tcp_connect run_app app_event app_window_event window_event_in client_event
    loop_ends any_exited any_loop_exited cancel_auth quit assign ◌>>=◌ new new_client exit_code
    mathlib.Core.Option.or_else
cancelled_run = refl

not_asked : (any_arg is_help (drop 1 line) ≡ false) × (any_arg is_version (drop 1 line) ≡ false)
unfolding any_arg
not_asked = (refl, refl)

run-exit_code_example : authentication_failed ≡ (
    if outside.loop_builds && not outside.loop_fails then authentication_failed else internal_error)
run-exit_code_example =
    run-exit_code outside line named_target started_with (cancels ∷ []) (late ∷ []) over
      authentication_failed authentication_failed not_asked.0 not_asked.1 line_parsed
      (refl, local, read_back, connected) refl stopped refl cancelled_run
