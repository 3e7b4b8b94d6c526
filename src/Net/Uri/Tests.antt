-- ===== src/Net/Uri/Tests.antt =====
-- The tests of uri.rs, and its theorems at concrete targets.
use rust_xpra.Prelude.{◌≡◌, refl, none, some, [], ◌++◌, ok, err, codes}
use rust_xpra.Net.Uri.{
  Target, parse_target, parse_uri, socket_target, network_target, parse_scheme, direct_target,
  ssh_target, user_of, host_only, tls, ssh, socket, missing_socket_path, relative_socket_path,
}
use rust_xpra.Net.Uri.Laws.{IsTarget, parse_target-IsTarget}
use rust_xpra.Net.Uri.RoundTrip.{SshParts, ssh_uri, uri, parse_target-direct, parse_target-ssh_uri}

abbrev runtime_socket : Target
runtime_socket = record {
  scheme = socket;
  address = codes "/run/user/1000/xpra/10";
  path = [];
  username = none;
}

socket_uri_uses_its_absolute_path_as_the_address :
    parse_target (codes "socket:///run/user/1000/xpra/10") ≡ ok runtime_socket
unfolding parse_target parse_uri socket_target
socket_uri_uses_its_absolute_path_as_the_address = refl

bare_absolute_path_is_socket_shorthand :
    parse_target (codes "/run/user/1000/xpra/10") ≡ ok runtime_socket
unfolding parse_target
bare_absolute_path_is_socket_shorthand = refl

socket_uri_requires_an_absolute_path :
    (parse_target (codes "socket://") ≡ err (missing_socket_path (codes "socket://")))
    × (parse_target (codes "socket://relative/path")
        ≡ err (relative_socket_path (codes "socket://relative/path")))
unfolding parse_target parse_uri socket_target
socket_uri_requires_an_absolute_path = (refl, refl)

-- A bracketed address without a port is taken for one that has a port.
bracketed_host :
    parse_target (codes "ssh://[::1]/")
    ≡ ok (record { scheme = ssh; address = codes "[::1]"; path = []; username = none })
unfolding parse_target parse_uri network_target parse_scheme direct_target ssh_target user_of
bracketed_host = refl

hosts :
    (host_only (codes "[::1]:1234") ≡ codes "[::1]")
    × (host_only (codes "example") ≡ codes "example")
unfolding host_only
hosts = (refl, refl)

parse_target-IsTarget_example : IsTarget runtime_socket
parse_target-IsTarget_example =
    parse_target-IsTarget (codes "/run/user/1000/xpra/10") runtime_socket
      bare_absolute_path_is_socket_shorthand

parse_target-direct_case :
    parse_target (uri (codes "SSL") (codes "h:1" ++ codes "/p"))
    ≡ ok (record { scheme = tls; address = codes "h:1"; path = codes "/p"; username = none })
parse_target-direct_case =
    parse_target-direct tls (codes "SSL") (codes "h:1") (codes "/p") refl (λ e. cc) (λ e. cc) refl
      refl refl

abbrev parts : SshParts
parts = record {
  user = some (codes "joe");
  host = codes "example.org";
  port = none;
  display = codes "10";
}

parse_target-ssh_uri_example :
    parse_target (ssh_uri parts)
    ≡ ok (record {
      scheme = ssh;
      address = codes "example.org:22";
      path = codes "10";
      username = some (codes "joe");
    })
parse_target-ssh_uri_example = parse_target-ssh_uri parts (record {
  user = (refl, refl);
  host = (refl, refl);
  some_host = refl;
  no_colon = refl;
  port = tt;
  display = refl;
})
