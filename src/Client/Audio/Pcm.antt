-- ===== src/Client/Audio/Pcm.antt =====
-- src/client/audio.rs: `PcmBuffer`, the queue of decoded samples. `fade_in` computes
-- with f32 and is not modelled, nor is `enforce_hard_cap`, which calls it.
pub mod Queue
pub mod Edits
use rust_xpra.Prelude.{
  ℕ, zero, suc, ◌+◌, ◌-◌, ◌*◌, ◌/◌, ◌%◌, ◌^◌, min, max, Bool, true, false, List, [], ◌∷◌, ◌++◌,
  ◌==◌, leb, if◌then◌else◌, length, take, drop,
}
use rust_xpra.Prelude.Int.{ℤ}

abbrev pub sample_rate : ℕ
sample_rate = 48000

-- Samples of a frame stand next to each other, one for each channel.
abbrev pub Samples : Type 0
Samples = List ℤ

pub record PcmChunk : Type 0 where
  pub samples : Samples
  pub frame_offset : ℕ

pub record PcmBuffer : Type 0 where
  pub channels : ℕ
  pub chunks : List PcmChunk
  pub frames : ℕ

pub new : ℕ → PcmBuffer
new channels = record { channels = max channels 1; chunks = []; frames = 0 }

pub latency_ms : PcmBuffer → ℕ
latency_ms b = b.frames * 1000 % 2 ^ 64 / sample_rate % 2 ^ 32

pub truncated : ℕ → Samples → Samples
truncated channels samples = take (length samples - length samples % channels) samples

pub push_whole : Samples → PcmBuffer → PcmBuffer
push_whole samples b =
    let frames = length samples / b.channels in
    if frames == 0 then b else record b {
      frames = b.frames + frames;
      chunks = b.chunks ++ (record { samples = samples; frame_offset = 0 } ∷ []);
    }

pub push : Samples → PcmBuffer → PcmBuffer
push samples b = push_whole (truncated b.channels samples) b

-- `front.samples.len() / self.channels - front.frame_offset`
pub available : ℕ → PcmChunk → ℕ
available channels c = length c.samples / channels - c.frame_offset

-- What the loop of `pop_into` copies, how many frames that is, and the chunks it leaves.
pub record Popped : Type 0 where
  pub copied : Samples
  pub copied_frames : ℕ
  pub left : List PcmChunk

-- With `want` frames to go. A chunk that is not used up is the last one that the loop looks at.
pub pop_loop : ℕ → ℕ → List PcmChunk → Popped
pop_loop channels want [] = record { copied = []; copied_frames = 0; left = [] }
pop_loop channels want (c ∷ cs) =
    let taken = min (available channels c) want in
    let here = take (taken * channels) (drop (c.frame_offset * channels) c.samples) in
    let rest = pop_loop channels (want - taken) cs in
    if want == 0
    then record { copied = []; copied_frames = 0; left = c ∷ cs }
    else if c.frame_offset + taken == length c.samples / channels
    then record {
      copied = here ++ rest.copied;
      copied_frames = taken + rest.copied_frames;
      left = rest.left;
    }
    else record {
      copied = here;
      copied_frames = taken;
      left = record c { frame_offset = c.frame_offset + taken } ∷ cs;
    }

-- Into a destination of `room` samples: the samples that are copied to its start, the number of
-- frames that is returned, and the buffer.
pub pop_into : ℕ → ℕ → PcmBuffer → Samples × ℕ × PcmBuffer
pop_into room requested b =
    let want = min (min requested b.frames) (room / b.channels) in
    let popped = pop_loop b.channels want b.chunks in
    (
      popped.copied,
      popped.copied_frames,
      record b { chunks = popped.left; frames = b.frames - popped.copied_frames },
    )

-- The loop of `discard_frames`: the frames that it could not discard, and the chunks it leaves.
pub discard_loop : ℕ → ℕ → List PcmChunk → ℕ × List PcmChunk
discard_loop channels frames [] = (frames, [])
discard_loop channels frames (c ∷ cs) =
    let taken = min (available channels c) frames in
    let rest = discard_loop channels (frames - taken) cs in
    if frames == 0
    then (0, c ∷ cs)
    else if c.frame_offset + taken == length c.samples / channels
    then rest
    else (frames - taken, record c { frame_offset = c.frame_offset + taken } ∷ cs)

pub discard_frames : ℕ → PcmBuffer → PcmBuffer
discard_frames frames b =
    let (left, chunks) = discard_loop b.channels frames b.chunks in
    record b { chunks = chunks; frames = b.frames - (min frames b.frames - left) }
