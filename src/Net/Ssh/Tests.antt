-- ===== src/Net/Ssh/Tests.antt =====
-- Runs of ssh.rs's functions, and its theorems at concrete targets.
use rust_xpra.Prelude.{◌≡◌, refl, none, some, List, [], ◌∷◌, ◌++◌, ok, Bytes, codes}
use rust_xpra.Net.Uri.{Target, parse_target, ssh}
use rust_xpra.Net.Uri.RoundTrip.{SshParts, AreSshParts, ssh_uri, parse_target-ssh_uri}
use rust_xpra.Net.Ssh.{shell_quote, escape_quotes, ssh_args, guarded_command, remote_command}
use rust_xpra.Net.Ssh.Shell.{read_word, bare, read_word-shell_quote, Words, remote_command-Words}
use rust_xpra.Net.Ssh.Arguments.{expected_args, ssh_args-ssh_uri, ssh_args-parse_target}

quotes : shell_quote (codes "a'b") ≡ codes "'a'\\''b'"
unfolding shell_quote escape_quotes
quotes = refl

read_word-shell_quote_example :
    read_word bare (shell_quote (codes "10; rm -rf '~'") ++ codes "; else")
    ≡ some (codes "10; rm -rf '~'", codes " else")
read_word-shell_quote_example = read_word-shell_quote (codes "10; rm -rf '~'") (codes "; else") refl

remote_command-Words_example :
    Words
      (codes "sh" ∷ codes "-c" ∷ guarded_command (codes "10") ∷ [])
      (remote_command (codes "10"))
    × ((tail : Bytes) × (guarded_command (codes "10")
          ≡ codes "if command -v \"xpra\" > /dev/null 2>&1; then xpra _proxy " ++ tail)
        × (read_word bare tail
            ≡ some (codes "10", codes " else echo \"no xpra command found\" 1>&2; exit 1; fi")))
remote_command-Words_example = remote_command-Words b'1' (codes "0")

abbrev parts : SshParts
parts = record {
  user = some (codes "joe");
  host = codes "example.org";
  port = none;
  display = codes "10";
}

parts_lem : AreSshParts parts
parts_lem = record {
  user = (refl, refl);
  host = (refl, refl);
  some_host = refl;
  no_colon = refl;
  port = tt;
  display = refl;
}

ssh_args-ssh_uri_case :
    (t : Target) × (parse_target (ssh_uri parts) ≡ ok t)
    × (ssh_args t.address t.username t.path ≡ ok (expected_args parts))
ssh_args-ssh_uri_case = ssh_args-ssh_uri parts parts_lem refl

abbrev target : Target
target = record {
  scheme = ssh;
  address = codes "example.org:22";
  path = codes "10";
  username = some (codes "joe");
}

ssh_args-parse_target_case :
    (args : List Bytes) × (ssh_args (codes "example.org:22") (some (codes "joe")) (codes "10")
      ≡ ok args)
ssh_args-parse_target_case =
    ssh_args-parse_target (ssh_uri parts) target (parse_target-ssh_uri parts parts_lem) refl
