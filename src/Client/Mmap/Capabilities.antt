-- ===== src/Client/Mmap/Capabilities.antt =====
-- When mmap.rs turns the shared area on.
use mathlib.Core.Option
use rust_xpra.Prelude.{
  ℕ, ◌+◌, ◌^◌, ◌≤◌, ◌<◌, ◌≡◌, refl, sym, ◌∙◌, Bool, true, false, Bool-cases, Option-cases, inl, inr,
  arith, Option, none, some, ◌==◌, if◌then◌else◌, Bytes, codes, length, Result, ok,
}
use rust_xpra.Net.Packet.{Yaml, yaml_hash, yaml_hash_bool}
use rust_xpra.Client.Mmap.{
  MmapArea, MmapError, read_token, write_token, verify, check_token, check_area, check_server_caps,
  hash_usize, yaml_u128,
}
use rust_xpra.Client.Mmap.Tokens.{read_token-write_token}

-- The server's write area, or all its capabilities where an older server has no part of that name.
abbrev pub area_of : Yaml → Yaml
area_of caps = Option.get_or (yaml_hash caps (codes "write")) caps

abbrev pub index_of : Yaml → ℕ
index_of caps = Option.get_or (hash_usize caps (codes "token_index")) 0

abbrev pub count_of : Yaml → ℕ
count_of caps = Option.get_or (hash_usize caps (codes "token_bytes")) 128

-- The capabilities describe an area with the token `token`.
pub record IsOffer (hello : Yaml) (caps : Yaml) (token : ℕ) : Type 0 where
  pub named : yaml_hash hello (codes "mmap") ≡ some caps
  pub enabled : Option.get_or (yaml_hash_bool (area_of caps) (codes "enabled")) true ≡ true
  pub drawn : Option.bind (yaml_hash (area_of caps) (codes "token")) yaml_u128 ≡ some token

module _ (a : MmapArea) (hello caps : Yaml) (token : ℕ) (offer : IsOffer hello caps token) where
  -- What is found where the server says that its token is decides, and nothing else does.
  pub check_server_caps_lem :
      check_server_caps a hello
      ≡ verify token
          (index_of (area_of caps))
          (count_of (area_of caps))
          (read_token a.memory (index_of (area_of caps)) (count_of (area_of caps)))
  unfolding check_server_caps check_area check_token
  check_server_caps_lem =
      rw (offer.named, offer.enabled, offer.drawn, check_server_caps, check_area, check_token) refl

  -- A server that wrote its token where it says is believed.
  pub check_server_caps-write_token :
      (old : Bytes)
      → a.memory ≡ write_token old token (index_of (area_of caps)) (count_of (area_of caps))
      → 1 ≤ count_of (area_of caps)
      → index_of (area_of caps) + count_of (area_of caps) ≤ length old
      → length old < 2 ^ 64
      → token < 256 ^ count_of (area_of caps)
      → token < 2 ^ 128
      → check_server_caps a hello ≡ ok true
  unfolding verify
  check_server_caps-write_token old wrote some_bytes inside small fits wide =
      check_server_caps_lem
      ∙ rw
          (
            wrote,
            read_token-write_token old token (index_of (area_of caps)) (count_of (area_of caps))
                some_bytes inside small fits wide,
            found,
          )
          refl
    where
      found : (token == token) ≡ true
      found = ground arith

constant : (b : Bool) → Path (Result MmapError Bool) (if b then ok false else ok false) (ok false)
constant true = refl
constant false = refl

verify-true :
    (token index count : ℕ) (found : Option ℕ)
    → verify token index count found ≡ ok true
    → found ≡ some token
unfolding verify
verify-true token index count none h = cc h
verify-true token index count (some found) h = ground (arith, h)

-- The area is turned on only where the hello offers a token that stands in the area, where it says.
pub check_server_caps-IsOffer :
    (a : MmapArea) (hello : Yaml)
    → check_server_caps a hello ≡ ok true
    → (caps : Yaml) × (token : ℕ) × IsOffer hello caps token
      × (read_token a.memory (index_of (area_of caps)) (count_of (area_of caps)) ≡ some token)
unfolding check_server_caps check_area check_token
check_server_caps-IsOffer a hello on = elim (Option-cases (yaml_hash hello (codes "mmap"))) [
  | inl n ↦
      let e : check_server_caps a hello ≡ ok false = rw (n, check_server_caps) refl in
      absurd (cc (e, on))
  | inr (caps, named) ↦
      elim (Option-cases (Option.bind (yaml_hash (area_of caps) (codes "token")) yaml_u128)) [
        | inl n ↦
            let e : check_server_caps a hello ≡ ok false =
              rw (named, n, check_server_caps, check_area, check_token)
                (constant (Option.get_or (yaml_hash_bool (area_of caps) (codes "enabled")) true)) in
            absurd (cc (e, on))
        | inr (token, drawn) ↦
            elim (Bool-cases
              (Option.get_or (yaml_hash_bool (area_of caps) (codes "enabled")) true)) [
                | inl enabled ↦
                    let offer : IsOffer hello caps token = record {
                      named = named;
                      enabled = enabled;
                      drawn = drawn;
                    } in
                    (
                      caps,
                      token,
                      offer,
                      verify-true token (index_of (area_of caps)) (count_of (area_of caps)) _
                          (sym (check_server_caps_lem a hello caps token offer) ∙ on),
                    )
                | inr off ↦
                    let e : check_server_caps a hello ≡ ok false =
                      rw (named, off, check_server_caps, check_area, check_token) refl in
                    absurd (cc (e, on))
              ]
      ]
]
