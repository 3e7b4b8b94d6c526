-- ===== src/Client/Audio/Tests.antt =====
-- The theorems of audio.rs's model at concrete buffers, packets and sessions.
use rust_xpra.Prelude.{◌≡◌, refl, true, false, some, [], ◌∷◌, ◌++◌, arith, codes, err}
use rust_xpra.Prelude.Int.{pos}
use rust_xpra.Client.Audio.Pcm.{PcmBuffer, pop_into, push, discard_frames}
use rust_xpra.Client.Audio.Pcm.Queue.{queued, IsQueue, pop_into_lem}
use rust_xpra.Client.Audio.Pcm.Edits.{push_lem, discard_frames_lem}
use rust_xpra.Client.Audio.Protocol.{
  AudioProtocol, begin, finish, run, begins, finishes, old_sequence, begin-finish,
}

-- Stereo: one frame left of the first chunk, and two frames in the second.
abbrev buffer : PcmBuffer
buffer = record {
  channels = 2;
  chunks =
      record { samples = pos 1 ∷ pos 2 ∷ pos 3 ∷ pos 4 ∷ []; frame_offset = 1 }
      ∷ record { samples = pos 5 ∷ pos 6 ∷ pos 7 ∷ pos 8 ∷ []; frame_offset = 0 }
      ∷ [];
  frames = 3;
}

buffer-IsQueue : IsQueue buffer
buffer-IsQueue = record {
  some_channels = omega arith;
  chunks = ((refl, omega arith), ((refl, omega arith), tt));
  counted = refl;
}

pop_into_lem_example :
    let p = pop_into 5 9 buffer in
    (p.0 ≡ pos 3 ∷ pos 4 ∷ pos 5 ∷ pos 6 ∷ [])
    × (p.1 ≡ 2)
    × IsQueue p.2
    × (queued 2 p.2.chunks ≡ pos 7 ∷ pos 8 ∷ [])
    × (p.2.frames ≡ 1)
    × (p.2.channels ≡ 2)
pop_into_lem_example = pop_into_lem 5 9 buffer buffer-IsQueue

push_lem_case :
    let b' = push (pos 9 ∷ pos 10 ∷ pos 11 ∷ []) buffer in
    IsQueue b'
    × (queued 2 b'.chunks ≡ queued 2 buffer.chunks ++ (pos 9 ∷ pos 10 ∷ []))
    × (b'.frames ≡ 4)
    × (b'.channels ≡ 2)
push_lem_case = push_lem (pos 9 ∷ pos 10 ∷ pos 11 ∷ []) buffer buffer-IsQueue

discard_frames_lem_case :
    let b' = discard_frames 2 buffer in
    IsQueue b' × (queued 2 b'.chunks ≡ pos 7 ∷ pos 8 ∷ []) × (b'.frames ≡ 1) × (b'.channels ≡ 2)
discard_frames_lem_case = discard_frames_lem 2 buffer buffer-IsQueue (omega arith)

abbrev playing : AudioProtocol
playing = record {
  capabilities_sent = true;
  negotiated = true;
  active = true;
  sequence = 7;
  header_seen = true;
  server_av_sync = false;
}

begin-finish_example :
    begin
      (codes "opus")
      (some 7)
      (run (finish playing).1 (begins (codes "opus") (some 9) ∷ finishes ∷ []))
    ≡ err (
        old_sequence 7
          (run (finish playing).1 (begins (codes "opus") (some 9) ∷ finishes ∷ [])).sequence)
begin-finish_example =
    begin-finish playing (begins (codes "opus") (some 9) ∷ finishes ∷ []) 7 (omega arith)
      (omega arith, tt) (omega arith)
