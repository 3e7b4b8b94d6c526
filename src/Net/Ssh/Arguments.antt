-- ===== src/Net/Ssh/Arguments.antt =====
-- From the command line's URI to the arguments of `ssh`.
use rust_xpra.Prelude.{
  ℕ, ◌≡◌, refl, false, Option, none, some, List, [], ◌∷◌, ◌++◌, arith, if◌then◌else◌, Bytes, codes,
  contains, rsplit_once, ok, Result, bytes_eq,
}
use rust_xpra.Net.Uri.{Target, parse_target, ssh}
use rust_xpra.Net.Uri.Laws.{parse_target-IsTarget}
use rust_xpra.Net.Uri.RoundTrip.{
  SshParts, AreSshParts, ssh_uri, port_or_default, parse_target-ssh_uri,
}
use rust_xpra.Net.Ssh.{SshError, ssh_args, remote_command, port_args, user_args}

rsplit_once_absent : (s : Bytes) (c : ℕ) → contains s c ≡ false → rsplit_once s c ≡ none
rsplit_once_absent [] c h = refl
rsplit_once_absent (x ∷ s) c h = rw (rsplit_once_absent s c (ground arith)) (ground arith)

rsplit_once-append :
    (a b : Bytes) (c : ℕ) → contains b c ≡ false → rsplit_once (a ++ c ∷ b) c ≡ some (a, b)
rsplit_once-append [] b c h = rw (rsplit_once_absent b c h) (ground arith)
rsplit_once-append (x ∷ a) b c h = rw (rsplit_once-append a b c h) refl

-- Every ssh target that the command line's parser accepts has an address that splits into a host
-- and a port: connecting never fails for want of one.
pub ssh_args-parse_target :
    (s : Bytes) (t : Target)
    → parse_target s ≡ ok t
    → t.scheme ≡ ssh
    → (args : List Bytes) × (ssh_args t.address t.username t.path ≡ ok args)
ssh_args-parse_target s t h e = (parse_target-IsTarget s t h).starts (rw e refl)

-- What a user asks for, `-p` only for a port that is not 22.
abbrev pub expected_args : SshParts → List Bytes
expected_args p =
    codes "-x"
    ∷ codes "-T"
    ∷ ((if bytes_eq (port_or_default p.port) (codes "22")
          then []
          else codes "-p" ∷ port_or_default p.port ∷ [])
        ++ (elim p.user [ none ↦ [] | some u ↦ codes "-l" ∷ u ∷ [] ]
            ++ p.host ∷ remote_command p.display ∷ []))

-- An ssh URI ends in a call of `ssh` with its host, its user, its port and its display.
pub ssh_args-ssh_uri :
    (p : SshParts)
    → AreSshParts p
    → contains (port_or_default p.port) b':' ≡ false
    → (t : Target) × (parse_target (ssh_uri p) ≡ ok t)
      × (ssh_args t.address t.username t.path ≡ ok (expected_args p))
unfolding ssh_args port_args user_args
ssh_args-ssh_uri p h no_colon = (
  _,
  parse_target-ssh_uri p h,
  rw (rsplit_once-append p.host (port_or_default p.port) b':' no_colon, ssh_args) (args p.user),
)
  where
    args :
        (user : Option Bytes)
        → ◌≡◌ {A = Result SshError (List Bytes)}
            (ok (
              codes "-x"
              ∷ codes "-T"
              ∷ (port_args (port_or_default p.port)
                  ++ (user_args user ++ p.host ∷ remote_command p.display ∷ []))))
            (ok (expected_args (record p { user = user })))
    args none = refl
    args (some u) = refl
