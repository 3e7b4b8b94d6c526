-- ===== src/Client/Audio/Protocol.antt =====
-- src/client/audio.rs: `AudioProtocol`, which stream the audio packets belong to.
use rust_xpra.Prelude.{
  ℕ, ◌+◌, ◌-◌, ◌^◌, ◌≤◌, ◌<◌, ◌≡◌, refl, min, Bool, true, false, not, Option, none, some, List, [],
  ◌∷◌, ltb, arith, Bytes, codes, bytes_eq, Result, ok, err, ◌>>◌, guard,
}

pub record AudioProtocol : Type 0 where
  pub capabilities_sent : Bool
  pub negotiated : Bool
  pub active : Bool
  pub sequence : ℕ
  pub header_seen : Bool
  pub server_av_sync : Bool

pub default : AudioProtocol
default = record {
  capabilities_sent = false;
  negotiated = false;
  active = false;
  sequence = 0;
  header_seen = false;
  server_av_sync = false;
}

pub data AudioError : Type 0 where
  unsupported_codec : Bytes → AudioError
  old_sequence : ℕ → ℕ → AudioError

pub accepts_sequence : AudioProtocol → Option ℕ → Bool
accepts_sequence p none = true
accepts_sequence p (some sequence) = not (ltb sequence p.sequence)

abbrev or_default : Option ℕ → ℕ → ℕ
or_default none d = d
or_default (some n) d = n

-- The sequence that is returned, and the state. Where the source returns an error it has changed
-- nothing.
pub begin : Bytes → Option ℕ → AudioProtocol → Result AudioError (ℕ × AudioProtocol)
begin codec sequence p = do
  guard (bytes_eq codec (codes "opus")) (unsupported_codec codec)
  guard (accepts_sequence p sequence) (old_sequence (or_default sequence 0) p.sequence)
  let current = or_default sequence p.sequence
  ok (current, record p { sequence = current; active = true; header_seen = false })

-- `saturating_add` of a u64
pub finish : AudioProtocol → ℕ × AudioProtocol
finish p =
    let next = min (p.sequence + 1) (2 ^ 64 - 1) in
    (next, record p { active = false; header_seen = false; sequence = next })

-- What can happen to the state in the course of a session.
pub data Event : Type 0 where
  begins : Bytes → Option ℕ → Event
  finishes : Event

begun : AudioProtocol → Result AudioError (ℕ × AudioProtocol) → AudioProtocol
begun p (ok (n, q)) = q
begun p (err e) = p

pub run : AudioProtocol → List Event → AudioProtocol
run p [] = p
run p (begins codec sequence ∷ es) = run (begun p (begin codec sequence p)) es
run p (finishes ∷ es) = run (finish p).1 es

-- The sequences that u64 fields hold.
abbrev pub AreSequences : List Event → Type 0
AreSequences [] = Unit
AreSequences (begins codec (some n) ∷ es) = (n < 2 ^ 64) × AreSequences es
AreSequences (_ ∷ es) = AreSequences es

begun_later :
    (codec : Bytes) (sequence : Option ℕ) (p : AudioProtocol)
    → p.sequence ≤ (begun p (begin codec sequence p)).sequence
unfolding begun begin accepts_sequence
begun_later codec none p = ground arith
begun_later codec (some n) p = ground arith

begun_small :
    (codec : Bytes) (n : ℕ) (p : AudioProtocol)
    → n < 2 ^ 64
    → p.sequence < 2 ^ 64
    → (begun p (begin codec (some n) p)).sequence < 2 ^ 64
unfolding begun begin accepts_sequence
begun_small codec n p h small = ground arith

begun_same :
    (codec : Bytes) (p : AudioProtocol) → (begun p (begin codec none p)).sequence ≡ p.sequence
unfolding begun begin accepts_sequence
begun_same codec p = ground arith

-- The sequence never goes back.
pub run_later :
    (p : AudioProtocol) (es : List Event)
    → p.sequence < 2 ^ 64
    → AreSequences es
    → p.sequence ≤ (run p es).sequence
unfolding run finish
run_later p [] small i = omega arith
run_later p (begins codec none ∷ es) small i = omega (
  arith,
  begun_same codec p,
  run_later (begun p (begin codec none p)) es (omega (arith, begun_same codec p)) i,
)
run_later p (begins codec (some n) ∷ es) small i = omega (
  arith,
  begun_later codec (some n) p,
  run_later (begun p (begin codec (some n) p)) es (begun_small codec n p i.0 small) i.1,
)
run_later p (finishes ∷ es) small i = omega (arith, run_later (finish p).1 es (omega arith) i)

-- Once a stream has been finished, a packet of it or of an older one cannot begin a stream again,
-- whatever happens in between: it is refused as old.
pub begin-finish :
    (p : AudioProtocol) (es : List Event) (n : ℕ)
    → p.sequence < 2 ^ 64 - 1
    → AreSequences es
    → n ≤ p.sequence
    → begin (codes "opus") (some n) (run (finish p).1 es)
      ≡ err (old_sequence n (run (finish p).1 es).sequence)
unfolding begin accepts_sequence finish
begin-finish p es n small i old =
    let later = run_later (finish p).1 es (omega arith) i in
    let refused : ltb n (run (finish p).1 es).sequence ≡ true = ground (arith, later) in
    rw refused refl
