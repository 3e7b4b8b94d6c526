-- ===== src/Client/Audio/Pcm/Queue.antt =====
-- The queue of decoded samples as the list of the samples that are still to be played.
use rust_xpra.Prelude.{
  ℕ, ◌+◌, ◌-◌, ◌*◌, ◌/◌, ◌≤◌, ◌<◌, ◌≡◌, refl, sym, ap, ◌∙◌, min, Bool-cases, inl, inr, List, [],
  ◌∷◌, ◌++◌, append-nil, ◌==◌, arith, length, length-drop, take, drop,
}
use rust_xpra.Prelude.Slices.{drop-drop, take_all, drop_all, take-append_any, drop-append_any}
use rust_xpra.Client.Audio.Pcm.{Samples, PcmChunk, PcmBuffer, Popped, available, pop_loop, pop_into}

-- The samples that are still to be played.
abbrev pub queued : ℕ → List PcmChunk → Samples
queued channels [] = []
queued channels (c ∷ cs) = drop (c.frame_offset * channels) c.samples ++ queued channels cs

-- A chunk has whole frames, of which some are left.
abbrev pub IsChunk : ℕ → PcmChunk → Type 0
IsChunk channels c =
    (length c.samples ≡ length c.samples / channels * channels)
    × (c.frame_offset < length c.samples / channels)

abbrev pub AreChunks : ℕ → List PcmChunk → Type 0
AreChunks channels [] = Unit
AreChunks channels (c ∷ cs) = IsChunk channels c × AreChunks channels cs

-- The frames that are still to be played.
abbrev pub total : ℕ → List PcmChunk → ℕ
total channels [] = 0
total channels (c ∷ cs) = length c.samples / channels - c.frame_offset + total channels cs

pub record IsQueue (b : PcmBuffer) : Type 0 where
  pub some_channels : 1 ≤ b.channels
  pub chunks : AreChunks b.channels b.chunks
  pub counted : total b.channels b.chunks ≡ b.frames

pub add_mul : (a d n : ℕ) → (a + d) * n ≡ a * n + d * n
add_mul a d n = grind arith

mul_mono : (a b n : ℕ) → a ≤ b → a * n ≤ b * n
mul_mono a b n h = grind arith

-- A chunk's own part.
length-part :
    (channels k : ℕ) (c : PcmChunk)
    → length c.samples ≡ k * channels
    → c.frame_offset ≤ k
    → length (drop (c.frame_offset * channels) c.samples) ≡ (k - c.frame_offset) * channels
length-part channels k c whole h =
    let e : c.frame_offset + (k - c.frame_offset) ≡ k = omega arith in
    omega (
      arith,
      length-drop (c.frame_offset * channels) c.samples,
      whole,
      add_mul c.frame_offset (k - c.frame_offset) channels,
      ap (λ (t : ℕ). t * channels) e,
    )

-- `want` frames have been taken off the chunks.
pub record Serves (channels want : ℕ) (cs : List PcmChunk) (p : Popped) : Type 0 where
  pub copied : p.copied ≡ take (want * channels) (queued channels cs)
  pub left : queued channels p.left ≡ drop (want * channels) (queued channels cs)
  pub count : p.copied_frames ≡ want
  pub chunks : AreChunks channels p.left
  pub remaining : total channels p.left + want ≡ total channels cs

module _ (channels want : ℕ) (c : PcmChunk) (cs : List PcmChunk) (i : IsChunk channels c)
    (j : AreChunks channels cs) where
  part : Samples
  part = drop (c.frame_offset * channels) c.samples

  frames_left : ℕ
  frames_left = length c.samples / channels - c.frame_offset

  length-own : length part ≡ frames_left * channels
  unfolding part frames_left
  length-own = length-part channels (length c.samples / channels) c i.0 (omega (arith, i.1))

  Serves-used :
      (p : Popped)
      → frames_left ≤ want
      → Serves channels (want - frames_left) cs p
      → Serves channels want (c ∷ cs) (record {
        copied = take (frames_left * channels) part ++ p.copied;
        copied_frames = frames_left + p.copied_frames;
        left = p.left;
      })
  unfolding part frames_left
  Serves-used p h s =
      let parts : frames_left + (want - frames_left) ≡ want = omega arith in
      let all : frames_left * channels + (want - frames_left) * channels ≡ want * channels =
        sym (add_mul frames_left (want - frames_left) channels)
        ∙ ap (λ (t : ℕ). t * channels) parts in
      let later : want * channels - length part ≡ (want - frames_left) * channels =
        omega (arith, length-own, all) in
      record {
        copied =
            rw
              (
                take-append_any (want * channels) part (queued channels cs),
                take_all (want * channels) part (omega (arith, length-own, all)),
                take_all (frames_left * channels) part (omega (arith, length-own)),
                later,
                s.copied,
              )
              refl;
        left =
            rw
              (
                drop-append_any (want * channels) part (queued channels cs),
                drop_all (want * channels) part (omega (arith, length-own, all)),
                later,
              )
              s.left;
        count = omega (arith, s.count);
        chunks = s.chunks;
        remaining = omega (arith, s.remaining);
      }

  Serves-left :
      want < frames_left
      → Serves channels want (c ∷ cs) (record {
        copied = take (want * channels) part;
        copied_frames = want;
        left = record c { frame_offset = c.frame_offset + want } ∷ cs;
      })
  unfolding part frames_left
  Serves-left h =
      let inside : want * channels ≤ frames_left * channels =
        mul_mono want frames_left channels (omega arith) in
      let nothing : want * channels - length part ≡ 0 = omega (arith, length-own, inside) in
      let moved : (c.frame_offset + want) * channels ≡ c.frame_offset * channels + want * channels =
        add_mul c.frame_offset want channels in
      record {
        copied =
            rw
              (
                take-append_any (want * channels) part (queued channels cs),
                nothing,
                append-nil (take (want * channels) part),
              )
              refl;
        left =
            rw
              (
                drop-append_any (want * channels) part (queued channels cs),
                nothing,
                moved,
                ← drop-drop (want * channels) (c.frame_offset * channels) c.samples,
              )
              refl;
        count = refl;
        chunks = ((i.0, omega arith), j);
        remaining = omega arith;
      }

Serves-none :
    (channels want : ℕ) (cs : List PcmChunk)
    → AreChunks channels cs
    → want ≡ 0
    → Serves channels want cs (record { copied = []; copied_frames = 0; left = cs })
Serves-none channels want cs i z =
    let nothing : want * channels ≡ 0 = omega (arith, ap (λ (t : ℕ). t * channels) z) in
    record {
      copied = rw nothing refl;
      left = rw nothing refl;
      count = sym z;
      chunks = i;
      remaining = omega arith;
    }

pub Serves-pop_loop :
    (channels want : ℕ) (cs : List PcmChunk)
    → AreChunks channels cs
    → want ≤ total channels cs
    → Serves channels want cs (pop_loop channels want cs)
unfolding pop_loop available frames_left part
Serves-pop_loop channels want [] i h = Serves-none channels want [] i (omega arith)
Serves-pop_loop channels want (c ∷ cs) i h = elim (Bool-cases (want == 0)) [
  | inl e ↦ rw e (Serves-none channels want (c ∷ cs) i (ground arith))
  | inr e ↦
      elim (Bool-cases
        (c.frame_offset + min (available channels c) want == length c.samples / channels)) [
          | inl used ↦
              let least : min (available channels c) want ≡ available channels c =
                ground (arith, i.0.1) in
              rw (e, used, least)
                (Serves-used channels want c cs i.0 i.1
                  (pop_loop channels (want - available channels c) cs) (ground (arith, i.0.1))
                  (Serves-pop_loop channels (want - available channels c) cs i.1
                    (omega (arith, h))))
          | inr left ↦
              let least : min (available channels c) want ≡ want = ground (arith, i.0.1) in
              rw (e, left, least) (Serves-left channels want c cs i.0 i.1 (ground (arith, i.0.1)))
        ]
]

-- What `pop_into` returns is what is queued, as much of it as is asked for, there, and fits, in whole
-- frames, and the queue goes on behind it.
pub pop_into_lem :
    (room requested : ℕ) (b : PcmBuffer)
    → IsQueue b
    → let want = min (min requested b.frames) (room / b.channels) in
      let p = pop_into room requested b in
      (p.0 ≡ take (want * b.channels) (queued b.channels b.chunks))
      × (p.1 ≡ want)
      × IsQueue p.2
      × (queued b.channels p.2.chunks ≡ drop (want * b.channels) (queued b.channels b.chunks))
      × (p.2.frames ≡ b.frames - want)
      × (p.2.channels ≡ b.channels)
unfolding pop_into
pop_into_lem room requested b q =
    let want = min (min requested b.frames) (room / b.channels) in
    let s : Serves b.channels want b.chunks (pop_loop b.channels want b.chunks) =
      Serves-pop_loop b.channels want b.chunks q.chunks (omega (arith, q.counted)) in
    (
      s.copied,
      s.count,
      record {
        some_channels = q.some_channels;
        chunks = s.chunks;
        counted = omega (arith, s.remaining, q.counted, s.count);
      },
      s.left,
      omega (arith, s.count),
      refl,
    )
