-- ===== src/Client/ConnectDialog/Tests.antt =====
-- The tests of connect_dialog.rs, and the theorems on the form at concrete forms.
use rust_xpra.Prelude.{◌+◌, ◌%◌, ◌≡◌, refl, true, false, some, none, [], ok, codes, arith}
use rust_xpra.Prelude.Int.{pos, negsuc, ◌+ℤ◌, ◌-ℤ◌, ◌*ℤ◌}
use rust_xpra.Prelude.Decimal.{decimal}
use rust_xpra.Net.Uri.{
  ssh, web_socket_tls, parse_target, parse_uri, network_target, parse_scheme, direct_target,
  ssh_target, user_of,
}
use rust_xpra.Client.ConnectDialog.{
  ConnectDialog, ConnectDetails, cancel_action, connect_action, no_status, connecting_status,
  on_connect, Display, new, draw, focus_index,
}
use rust_xpra.Client.ConnectDialog.Form.{
  submit, connect_details, build_uri, authority_of, bracketed, port_of, trim, non_empty,
  has_whitespace, clip, tail,
}
use rust_xpra.Client.ConnectDialog.Keys.{step, handle_key}
use rust_xpra.Client.ConnectDialog.Pointer.{rect_contains, button_rect}
use rust_xpra.Client.ConnectDialog.Order.{tabs, step_inverse, focus_index-tabs}
use rust_xpra.Client.ConnectDialog.Fields.{IsForm}
use rust_xpra.Client.ConnectDialog.Events.{opened, keyed, Reached-IsForm}
use rust_xpra.Client.ConnectDialog.Frozen.{handle_key-connecting}
use rust_xpra.Client.ConnectDialog.Submit.{target_of, parse_target-build_uri}
use rust_xpra.Client.ConnectDialog.Submitted.{IsSubmitted, submit-IsSubmitted}
use rust_xpra.Client.Session.Input.{character, named, escape}

abbrev display : Display
display = record { inner_size = (420, 270); scaled = λ z. z }

abbrev form : ConnectDialog
form = record {
  width = 420;
  height = 270;
  px = λ z. z;
  protocol = 4;
  dropdown = false;
  host = codes " ::1";
  port = codes "22";
  username = codes "joe";
  password = [];
  focus = on_connect;
  shift = false;
  pointer = (pos 240, pos 240);
  status = no_status;
}

abbrev details : ConnectDetails
details = record {
  uri = codes "ssh://joe@[::1]:22/";
  username = some (codes "joe");
  password = none;
}

form_submits : submit form ≡ (connect_action details, form)
unfolding submit connect_details build_uri authority_of bracketed port_of trim non_empty
    has_whitespace decimal
form_submits = refl

submit-IsSubmitted_example : IsSubmitted form details
unfolding non_empty trim
submit-IsSubmitted_example =
    submit-IsSubmitted form form details (omega arith) (refl, refl) form_submits

parse_target-build_uri_case :
    parse_target (build_uri (codes "wss") (codes "::1") 443 none)
    ≡ ok (target_of web_socket_tls (codes "::1") 443 none)
parse_target-build_uri_case =
    parse_target-build_uri 3 (codes "::1") 443 none (omega arith) tt refl refl

-- A user that has a slash sends the connection to another host.
redirected :
    parse_target (build_uri (codes "ssh") (codes "server") 22 (some (codes "DOMAIN/joe")))
    ≡ ok (record {
      scheme = ssh;
      address = codes "DOMAIN:22";
      path = codes "joe@server:22/";
      username = none;
    })
unfolding parse_target parse_uri network_target parse_scheme direct_target ssh_target user_of
    build_uri authority_of bracketed decimal
redirected = refl

long_values_are_shortened :
    (tail (codes "abcdef") 3 ≡ codes "def")
    × (tail (codes "ab") 4 ≡ codes "ab")
    × (clip (codes "abcdefgh") 6 ≡ codes "abc...")
    × (clip (codes "abc") 6 ≡ codes "abc")
unfolding tail clip
long_values_are_shortened = (refl, refl, refl, refl)

step_inverse_case :
    (step (negsuc 0) (step (pos 1) form) ≡ form) × (step (pos 1) (step (negsuc 0) form) ≡ form)
step_inverse_case = step_inverse form

focus_index-tabs_case : focus_index (tabs 3 form).focus ≡ (focus_index form.focus + 3) % 7
focus_index-tabs_case = focus_index-tabs 3 form

Reached-IsForm_example :
    IsForm (handle_key display true (character (codes "h")) (some (codes "h")) (new display)).1
Reached-IsForm_example =
    Reached-IsForm (keyed display true (character (codes "h")) (some (codes "h")) (opened display))

abbrev waiting : ConnectDialog
waiting = record form { status = connecting_status (codes "tcp://h:1/") }

handle_key-connecting_case :
    handle_key display true (named escape) none waiting ≡ (cancel_action, draw display waiting)
handle_key-connecting_case = handle_key-connecting display (named escape) none waiting refl

cancel_clicked : rect_contains (button_rect waiting false) waiting.pointer ≡ true
unfolding rect_contains button_rect ◌+ℤ◌ ◌-ℤ◌ ◌*ℤ◌
cancel_clicked = refl
