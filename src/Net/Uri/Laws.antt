-- ===== src/Net/Uri/Laws.antt =====
-- What every target that uri.rs accepts looks like, and exactly when it accepts.
use rust_xpra.Prelude.{
  ℕ, List, rsplit_once, Option-cases, Result-cases, inl, inr, Ensures, Ensures-ok, Ensures-if,
  Ensures-guard, Ensures-bind, ◌≡◌, refl, Bool, true, false, Option, none, some, [], ◌∷◌, ◌++◌, not,
  arith, Bytes, codes, starts_with, contains, is_empty, eq_ignore_case, split_at, break_at,
  trim_start, split_once, ok,
}
use rust_xpra.Net.Ssh.{ssh_args}
use rust_xpra.Net.Uri.{
  Scheme, Target, tcp, ssh, socket, parse_scheme, ssh_target, direct_target, socket_target,
  network_target, parse_uri, parse_target, user_of, missing_host_port, missing_socket_path,
  relative_socket_path,
}

abbrev pub is_ssh : Scheme → Bool
is_ssh ssh = true
is_ssh tcp = false
is_ssh _ = false

abbrev pub is_socket : Scheme → Bool
is_socket socket = true
is_socket tcp = false
is_socket _ = false

-- What the transports rely on: a Unix socket has an absolute path, the arguments of ssh can be made,
-- its display has no leading slash, and no other scheme carries a user.
pub record IsTarget (t : Target) : Type 0 where
  pub absolute : is_socket t.scheme ≡ true → starts_with t.address (codes "/") ≡ true
  pub starts :
      is_ssh t.scheme ≡ true
      → (args : List Bytes) × (ssh_args t.address t.username t.path ≡ ok args)
  pub display : is_ssh t.scheme ≡ true → starts_with t.path (codes "/") ≡ false
  pub no_user : is_ssh t.scheme ≡ false → t.username ≡ none

contains-append : (s r : Bytes) (c : ℕ) → contains (s ++ c ∷ r) c ≡ true
contains-append [] r c = ground arith
contains-append (a ∷ s) r c = ground (arith, contains-append s r c)

rsplit_once_some : (s : Bytes) (c : ℕ) → rsplit_once s c ≡ none → contains s c ≡ false
rsplit_once_some [] c h = refl
rsplit_once_some (x ∷ s) c h = ground (arith, rsplit_once_some s c)

-- An address with a colon is one that ssh can be started with.
ssh_args-ok :
    (address : Bytes) (username : Option Bytes) (display : Bytes)
    → contains address b':' ≡ true
    → (args : List Bytes) × (ssh_args address username display ≡ ok args)
unfolding ssh_args
ssh_args-ok address username display h = elim (Result-cases (ssh_args address username display)) [
  | inl (args, e) ↦ (args, e)
  | inr (e, f) ↦ elim (Option-cases (rsplit_once address b':')) [
    | inl g ↦ absurd (cc (rsplit_once_some address b':' g, h))
    | inr (p, g) ↦ absurd (cc (rw (g, ssh_args) at f))
  ]
]

starts-trim_start : (s : Bytes) → starts_with (trim_start b'/' s) (codes "/") ≡ false
starts-trim_start [] = refl
starts-trim_start (a ∷ s) = ground (arith, starts-trim_start s)

ssh_target-IsTarget : (authority path : Bytes) → IsTarget (ssh_target authority path)
unfolding ssh_target
ssh_target-IsTarget authority path = record {
  absolute = λ e. cc;
  starts = λ _.
      ssh_args-ok _ (user_of authority (split_once authority b'@')).0 (trim_start b'/' path) (
        ground (
          arith,
          contains-append (user_of authority (split_once authority b'@')).1 (codes "22") b':',
        ));
  display = λ _. starts-trim_start path;
  no_user = λ e. cc;
}

parse_scheme_not_socket : (s : Bytes) (k : Scheme) → parse_scheme s ≡ ok k → is_socket k ≡ false
unfolding parse_scheme
parse_scheme_not_socket s k h = ground arith

direct_target-IsTarget :
    (k : Scheme) (authority path : Bytes)
    → is_socket k ≡ false
    → IsTarget (direct_target k authority path)
unfolding direct_target
direct_target-IsTarget ssh authority path e = ssh_target-IsTarget authority path
direct_target-IsTarget socket authority path e = cc
direct_target-IsTarget k authority path e = record {
  absolute = λ e. ground arith;
  starts = λ e. cc;
  display = λ e. ground arith;
  no_user = λ e. refl;
}

network_target-Ensures : (s k rest : Bytes) → Ensures IsTarget (network_target s k rest)
unfolding network_target
network_target-Ensures s k rest =
    Ensures-guard (not (is_empty (break_at b'/' rest).0)) (missing_host_port s) λ _.
      Ensures-bind (parse_scheme k) λ scheme e. Ensures-ok (
        direct_target-IsTarget scheme (break_at b'/' rest).0 (break_at b'/' rest).1
          (parse_scheme_not_socket k scheme e))

socket_target-Ensures : (s rest : Bytes) → Ensures IsTarget (socket_target s rest)
unfolding socket_target
socket_target-Ensures s rest = Ensures-guard (not (is_empty rest)) (missing_socket_path s) λ _.
    Ensures-guard (starts_with rest (codes "/")) (relative_socket_path s) λ slash.
      Ensures-ok
        (record { absolute = λ _. slash; starts = λ e. cc; display = λ e. cc; no_user = λ _. refl })

parse_uri-Ensures : (s : Bytes) (o : Option (Bytes × Bytes)) → Ensures IsTarget (parse_uri s o)
unfolding parse_uri
parse_uri-Ensures s none =
    Ensures-ok
      (record { absolute = λ e. cc; starts = λ e. cc; display = λ e. cc; no_user = λ _. refl })
parse_uri-Ensures s (some (k, rest)) =
    Ensures-if (eq_ignore_case k (codes "socket")) (λ _. socket_target-Ensures s rest)
      (λ _. network_target-Ensures s k rest)

parse_target-Ensures : (s : Bytes) → Ensures IsTarget (parse_target s)
unfolding parse_target
parse_target-Ensures s =
    Ensures-if (starts_with s (codes "/"))
      (λ e.
        Ensures-ok
          (record { absolute = λ _. e; starts = λ e. cc; display = λ e. cc; no_user = λ _. refl }))
      (λ _. parse_uri-Ensures s (split_at (codes "://") s))

-- In every target that is accepted a Unix socket has an absolute path, no scheme but ssh carries a
-- user, the display of ssh has no leading slash, and its address is one that the arguments of the ssh
-- process can be made of: they are not refused for a missing port.
pub parse_target-IsTarget : (s : Bytes) (t : Target) → parse_target s ≡ ok t → IsTarget t
parse_target-IsTarget s = (parse_target-Ensures s).at
