-- ===== src/Client/Audio/Opus.antt =====
-- src/client/audio.rs: the head of an Opus stream, and how long a packet plays.
mod Tests
use rust_xpra.Prelude.{
  ℕ, zero, suc, Option-cases, ◌+◌, ◌-◌, ◌*◌, ◌/◌, ◌%◌, ◌^◌, ◌≤◌, ◌<◌, ◌≡◌, refl, sym, ap, ◌∙◌, min,
  bit_and, Bool, true, false, not, ◌&&◌, ◌||◌, Bool-cases, inl, inr, Option, none, some, List, [],
  ◌∷◌, ◌++◌, ◌==◌, ltb, leb, arith, if◌then◌else◌, Bytes, codes, bytes_eq, length, take, get_or,
  get_elem?, Result, ok, err, ◌>>=◌, ◌>>◌, guard, Ensures, Ensures-guard, Ensures-ok, tests,
}
use rust_xpra.Prelude.Bits.{and_low, bit_and_nibble, and_one, and_three}
use rust_xpra.Prelude.Int.{ℤ, to_signed}

pub record OpusHeader : Type 0 where
  pub version : ℕ
  pub channels : ℕ
  pub pre_skip : ℕ
  pub input_sample_rate : ℕ
  pub output_gain : ℤ
  pub mapping_family : ℕ

pub data OpusError : Type 0 where
  invalid_signature : OpusError
  unsupported_version : ℕ → OpusError
  zero_channels : OpusError
  too_many_channels : OpusError
  truncated_mapping : OpusError

-- `u16::from_le_bytes` and `u32::from_le_bytes` of the bytes from the `i`th on
abbrev pub le_16 : Bytes → ℕ → ℕ
le_16 bytes i = get_or bytes i 0 + 2 ^ 8 * get_or bytes (i + 1) 0

abbrev pub le_32 : Bytes → ℕ → ℕ
le_32 bytes i = le_16 bytes i + 2 ^ 16 * le_16 bytes (i + 2)

pub parse : Bytes → Result OpusError OpusHeader
parse bytes = do
  guard (not (ltb (length bytes) 19 || not (bytes_eq (take 8 bytes) (codes "OpusHead"))))
      invalid_signature
  let version = get_or bytes 8 0
  guard (bit_and version 0xf0 == 0) (unsupported_version version)
  let channels = get_or bytes 9 0
  guard (not (channels == 0)) zero_channels
  let mapping_family = get_or bytes 18 0
  guard (not ((mapping_family == 0) && ltb 2 channels)) too_many_channels
  guard ((mapping_family == 0) || leb (21 + channels) (length bytes)) truncated_mapping
  ok (record {
    version = version;
    channels = channels;
    pre_skip = le_16 bytes 10;
    input_sample_rate = le_32 bytes 12;
    output_gain = to_signed (2 ^ 15) (le_16 bytes 16);
    mapping_family = mapping_family;
  })

-- `data.get(1)? & 0x3f`, which is not zero
pub many_frames : Option ℕ → Option ℕ
many_frames none = none
many_frames (some b) = if bit_and b 0x3f == 0 then none else some (bit_and b 0x3f)

-- The number of frames in a packet, from the low bits of its first byte.
pub frame_count : ℕ → Bytes → Option ℕ
frame_count kind bytes =
    if kind == 0 then some 1 else if leb kind 2 then some 2 else many_frames (get_elem? bytes 1)

-- The frames of 48 kHz in one Opus frame of a configuration.
pub per_frame : ℕ → ℕ
per_frame config =
    if leb 16 config
    then 120 * 2 ^ bit_and config 3
    else if leb 12 config
    then 480 * 2 ^ bit_and config 1
    else get_or (480 ∷ 960 ∷ 1920 ∷ 2880 ∷ []) (bit_and config 3) 0

total_frames : ℕ → Option ℕ → Option ℕ
total_frames config none = none
total_frames config (some count) =
    let total = min (per_frame config * count) (2 ^ 32 - 1) in
    if leb total (48000 * 120 / 1000) then some total else none

pub opus_packet_frames : Bytes → Option ℕ
opus_packet_frames [] = none
opus_packet_frames (toc ∷ bytes) =
    total_frames (toc / 2 ^ 3) (frame_count (bit_and toc 3) (toc ∷ bytes))

-- A whole number of 2.5 ms, of which there are at least one and at most 48.
abbrev pub IsDuration : ℕ → Type 0
IsDuration n = (k : ℕ) × (n ≡ 120 * k) × (1 ≤ k) × (k ≤ 48)

celt : (m : ℕ) → m < 4 → IsDuration (120 * 2 ^ m)
celt zero h = (1, refl, omega arith, omega arith)
celt (suc zero) h = (2, refl, omega arith, omega arith)
celt (suc (suc zero)) h = (4, refl, omega arith, omega arith)
celt (suc (suc (suc zero))) h = (8, refl, omega arith, omega arith)
celt (suc (suc (suc (suc m)))) h = absurd (omega arith)

hybrid : (m : ℕ) → m < 2 → IsDuration (480 * 2 ^ m)
hybrid zero h = (4, refl, omega arith, omega arith)
hybrid (suc zero) h = (8, refl, omega arith, omega arith)
hybrid (suc (suc m)) h = absurd (omega arith)

silk : (m : ℕ) → m < 4 → IsDuration (get_or (480 ∷ 960 ∷ 1920 ∷ 2880 ∷ []) m 0)
silk zero h = (4, refl, omega arith, omega arith)
silk (suc zero) h = (8, refl, omega arith, omega arith)
silk (suc (suc zero)) h = (16, refl, omega arith, omega arith)
silk (suc (suc (suc zero))) h = (24, refl, omega arith, omega arith)
silk (suc (suc (suc (suc m)))) h = absurd (omega arith)

per_frame-IsDuration : (config : ℕ) → IsDuration (per_frame config)
unfolding per_frame
per_frame-IsDuration config = elim (Bool-cases (leb 16 config)) [
  | inl e ↦ rw (e, and_three config) (celt (config % 4) (omega arith))
  | inr e ↦ elim (Bool-cases (leb 12 config)) [
    | inl f ↦ rw (e, f, and_one config) (hybrid (config % 2) (omega arith))
    | inr f ↦ rw (e, f, and_three config) (silk (config % 4) (omega arith))
  ]
]

frame_count-some : (kind : ℕ) (bytes : Bytes) (n : ℕ) → frame_count kind bytes ≡ some n → 1 ≤ n
unfolding frame_count many_frames
frame_count-some kind bytes n h = elim (Option-cases (get_elem? bytes 1)) [
  | inl e ↦ ground (arith, h, e)
  | inr (b, e) ↦ ground (arith, h, e)
]

total_frames-IsDuration :
    (config count n : ℕ) → 1 ≤ count → total_frames config (some count) ≡ some n → IsDuration n
unfolding total_frames
total_frames-IsDuration config count n counted h =
    let (k, whole, some_time, short) = per_frame-IsDuration config in
    let product : per_frame config * count ≡ 120 * (k * count) =
      ap (λ (t : ℕ). t * count) whole ∙ grind arith in
    let positive : 1 ≤ k * count = product_positive k count some_time counted in
    let same : n ≡ min (per_frame config * count) (2 ^ 32 - 1) = ground (arith, h) in
    let bound : n ≤ 5760 = ground (arith, h) in
    (k * count, omega (arith, same, bound, product), positive, omega (arith, same, bound, product))
  where
    product_positive : (a b : ℕ) → 1 ≤ a → 1 ≤ b → 1 ≤ a * b
    product_positive a b p q = grind arith

-- Every packet that is not refused plays for a whole number of 2.5 ms, of which there is at least
-- one, and for at most 120 ms.
pub opus_packet_frames-IsDuration :
    (packet : Bytes) (n : ℕ) → opus_packet_frames packet ≡ some n → IsDuration n
unfolding opus_packet_frames total_frames
opus_packet_frames-IsDuration [] n h = cc h
opus_packet_frames-IsDuration (toc ∷ bytes) n h =
    elim (Option-cases (frame_count (bit_and toc 3) (toc ∷ bytes))) [
      | inl e ↦
          let refused : total_frames (toc / 2 ^ 3) none ≡ some n =
            ap (total_frames (toc / 2 ^ 3)) (sym e) ∙ h in
          cc refused
      | inr (count, e) ↦
          total_frames-IsDuration (toc / 2 ^ 3) count n
            (frame_count-some (bit_and toc 3) (toc ∷ bytes) count e)
            (ap (total_frames (toc / 2 ^ 3)) (sym e) ∙ h)
    ]

-- The head of a stream of mapping family 0, as RFC 7845 lays it out.
abbrev pub head : ℕ → ℕ → ℕ → ℕ → ℕ → Bytes → Bytes
head version channels pre_skip rate gain rest =
    codes "OpusHead"
    ++ (version
        ∷ channels
        ∷ pre_skip % 2 ^ 8
        ∷ pre_skip / 2 ^ 8
        ∷ rate % 2 ^ 8
        ∷ rate / 2 ^ 8 % 2 ^ 8
        ∷ rate / 2 ^ 16 % 2 ^ 8
        ∷ rate / 2 ^ 24
        ∷ gain % 2 ^ 8
        ∷ gain / 2 ^ 8
        ∷ 0
        ∷ rest)

high_bits : (v : ℕ) → v < 16 → bit_and v 0xf0 ≡ 0
high_bits v h = omega (
  arith,
  and_low v 240,
  and_low (v / 2) 120,
  and_low (v / 2 / 2) 60,
  and_low (v / 2 / 2 / 2) 30,
  bit_and_nibble (v / 2 / 2 / 2 / 2),
)

-- The head of a mono or stereo stream of a version below 16 is read as its fields, whatever follows
-- it; its gain is signed.
pub parse-head :
    (version channels pre_skip rate gain : ℕ) (rest : Bytes)
    → version < 16
    → 1 ≤ channels
    → channels ≤ 2
    → parse (head version channels pre_skip rate gain rest)
      ≡ ok (record {
        version = version;
        channels = channels;
        pre_skip = pre_skip;
        input_sample_rate = rate;
        output_gain = to_signed (2 ^ 15) gain;
        mapping_family = 0;
      })
unfolding parse
parse-head version channels pre_skip rate gain rest v some_channels few =
    let long : ltb
          (suc (
            suc (
              suc (
                suc (
                  suc (
                    suc (
                      suc (
                        suc (
                          suc (
                            suc (
                              suc (
                                suc (
                                  suc (suc (suc (suc (suc (suc (suc (length rest))))))))))))))))))))
          19
        ≡ false =
      ground arith in
    let at_least : (channels == 0) ≡ false = ground arith in
    let at_most : ltb 2 channels ≡ false = ground arith in
    let skip : pre_skip % 2 ^ 8 + 2 ^ 8 * (pre_skip / 2 ^ 8) ≡ pre_skip = omega arith in
    let level : gain % 2 ^ 8 + 2 ^ 8 * (gain / 2 ^ 8) ≡ gain = omega arith in
    let rated : rate % 2 ^ 8
          + 2 ^ 8 * (rate / 2 ^ 8 % 2 ^ 8)
          + 2 ^ 16 * (rate / 2 ^ 16 % 2 ^ 8 + 2 ^ 8 * (rate / 2 ^ 24))
        ≡ rate =
      omega arith in
    rw (long, high_bits version v, at_least, at_most, skip, level, rated) refl
