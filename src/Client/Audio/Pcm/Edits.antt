-- ===== src/Client/Audio/Pcm/Edits.antt =====
-- Samples that are added behind the queue, and frames that are discarded at its head.
use native.Mathlib.Nat.{div-add-mod, mul-div_cancel}
use rust_xpra.Prelude.{
  ℕ, ◌+◌, ◌-◌, ◌*◌, ◌/◌, ◌%◌, ◌≤◌, ◌≡◌, refl, sym, ap, ◌∙◌, min, Bool-cases, inl, inr, List, [],
  ◌∷◌, ◌++◌, append_assoc, append-nil, ◌==◌, arith, length, length-take, take, drop,
}
use rust_xpra.Client.Audio.Pcm.{
  Samples, PcmChunk, PcmBuffer, available, pop_loop, push, push_whole, truncated, discard_loop,
  discard_frames,
}
use rust_xpra.Client.Audio.Pcm.Queue.{
  queued, total, IsChunk, AreChunks, IsQueue, Serves, Serves-pop_loop,
}

discard_loop-pop_loop :
    (channels frames : ℕ) (cs : List PcmChunk)
    → AreChunks channels cs
    → frames ≤ total channels cs
    → discard_loop channels frames cs ≡ (0, (pop_loop channels frames cs).left)
unfolding discard_loop pop_loop available
discard_loop-pop_loop channels frames [] i h = let e : frames ≡ 0 = omega arith in rw e refl
discard_loop-pop_loop channels frames (c ∷ cs) i h = elim (Bool-cases (frames == 0)) [
  | inl e ↦ rw e refl
  | inr e ↦
      elim (Bool-cases
        (c.frame_offset + min (available channels c) frames == length c.samples / channels)) [
          | inl used ↦
              let least : min (available channels c) frames ≡ available channels c =
                ground (arith, i.0.1) in
              rw (e, used, least)
                (discard_loop-pop_loop channels (frames - available channels c) cs i.1
                  (omega (arith, h)))
          | inr left ↦
              let least : min (available channels c) frames ≡ frames = ground (arith, i.0.1) in
              let none_left : frames - frames ≡ 0 = omega arith in
              rw (e, left, least, none_left) refl
        ]
]

-- Discarding at most the frames that are there drops them from the head of the queue.
pub discard_frames_lem :
    (frames : ℕ) (b : PcmBuffer)
    → IsQueue b
    → frames ≤ b.frames
    → let b' = discard_frames frames b in
      IsQueue b'
      × (queued b.channels b'.chunks ≡ drop (frames * b.channels) (queued b.channels b.chunks))
      × (b'.frames ≡ b.frames - frames)
      × (b'.channels ≡ b.channels)
unfolding discard_frames
discard_frames_lem frames b q h =
    let s : Serves b.channels frames b.chunks (pop_loop b.channels frames b.chunks) =
      Serves-pop_loop b.channels frames b.chunks q.chunks (omega (arith, q.counted)) in
    let all : min frames b.frames - 0 ≡ frames = omega arith in
    rw (discard_loop-pop_loop b.channels frames b.chunks q.chunks (omega (arith, q.counted)), all)
      (
        record {
          some_channels = q.some_channels;
          chunks = s.chunks;
          counted = omega (arith, s.remaining, q.counted);
        },
        s.left,
        refl,
        refl,
      )

length-truncated :
    (channels : ℕ) (xs : Samples)
    → 1 ≤ channels
    → length (truncated channels xs) ≡ length xs / channels * channels
unfolding truncated
length-truncated channels xs h =
    grind
      (arith, length-take (length xs - length xs % channels) xs, div-add-mod (length xs) channels)

queued-append :
    (channels : ℕ) (cs ds : List PcmChunk)
    → queued channels (cs ++ ds) ≡ queued channels cs ++ queued channels ds
queued-append channels [] ds = refl
queued-append channels (c ∷ cs) ds = rw (queued-append channels cs ds) (
    sym (
      append_assoc (drop (c.frame_offset * channels) c.samples) (queued channels cs)
        (queued channels ds)))

total-append :
    (channels : ℕ) (cs ds : List PcmChunk)
    → total channels (cs ++ ds) ≡ total channels cs + total channels ds
total-append channels [] ds = omega arith
total-append channels (c ∷ cs) ds = omega (arith, total-append channels cs ds)

AreChunks-append :
    (channels : ℕ) (cs ds : List PcmChunk)
    → AreChunks channels cs
    → AreChunks channels ds
    → AreChunks channels (cs ++ ds)
AreChunks-append channels [] ds i j = j
AreChunks-append channels (c ∷ cs) ds i j = (i.0, AreChunks-append channels cs ds i.1 j)

-- Whole frames are put behind the queue.
push_whole_lem :
    (xs : Samples) (n : ℕ) (b : PcmBuffer)
    → IsQueue b
    → length xs ≡ n * b.channels
    → length xs / b.channels ≡ n
    → let b' = push_whole xs b in
      IsQueue b'
      × (queued b.channels b'.chunks ≡ queued b.channels b.chunks ++ xs)
      × (b'.frames ≡ b.frames + n)
      × (b'.channels ≡ b.channels)
unfolding push_whole
push_whole_lem xs n b q whole count = elim (Bool-cases (length xs / b.channels == 0)) [
  | inl e ↦
      let none_new : n ≡ 0 = ground (arith, count) in
      let no_samples : xs ≡ [] =
        empty_of xs (omega (arith, whole, ap (λ (t : ℕ). t * b.channels) none_new)) in
      rw (e, no_samples, append-nil (queued b.channels b.chunks)) (q, refl, omega arith, refl)
  | inr e ↦
      let new : PcmChunk = record { samples = xs; frame_offset = 0 } in
      let no_offset : 0 * b.channels ≡ 0 = omega arith in
      let is_new : IsChunk b.channels new =
        (omega (arith, whole, ap (λ (t : ℕ). t * b.channels) count), ground arith) in
      rw e (
        record {
          some_channels = q.some_channels;
          chunks = AreChunks-append b.channels b.chunks (new ∷ []) q.chunks (is_new, tt);
          counted = omega (arith, total-append b.channels b.chunks (new ∷ []), q.counted);
        },
        rw (queued-append b.channels b.chunks (new ∷ []), no_offset, append-nil xs) refl,
        omega (arith, count),
        refl,
      )
]
  where
    empty_of : (ys : Samples) → length ys ≡ 0 → ys ≡ []
    empty_of [] h = refl
    empty_of (y ∷ ys) h = absurd (omega arith)

-- Pushed samples stand behind the queue, but for those that are no whole frame.
pub push_lem :
    (samples : Samples) (b : PcmBuffer)
    → IsQueue b
    → let b' = push samples b in
      IsQueue b'
      × (queued b.channels b'.chunks
          ≡ queued b.channels b.chunks ++ take (length samples / b.channels * b.channels) samples)
      × (b'.frames ≡ b.frames + length samples / b.channels)
      × (b'.channels ≡ b.channels)
unfolding push truncated
push_lem samples b q =
    let n = length samples / b.channels in
    let cut : length samples - length samples % b.channels ≡ n * b.channels =
      grind (arith, div-add-mod (length samples) b.channels) in
    let whole : length (truncated b.channels samples) ≡ n * b.channels =
      length-truncated b.channels samples q.some_channels in
    rw (← cut) (
      push_whole_lem (truncated b.channels samples) n b q whole
        (ap (λ (t : ℕ). t / b.channels) whole ∙ mul-div_cancel n (omega (arith, q.some_channels))))
