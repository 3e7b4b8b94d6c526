-- ===== src/Client/Audio/Opus/Tests.antt =====
-- The theorems about Opus packets at a concrete packet and a concrete head.
use rust_xpra.Prelude.{◌≡◌, refl, some, [], ◌∷◌, arith, ok}
use rust_xpra.Prelude.Int.{negsuc}
use rust_xpra.Client.Audio.Opus.{
  opus_packet_frames, total_frames, frame_count, many_frames, per_frame, IsDuration,
  opus_packet_frames-IsDuration, parse, head, parse-head,
}

-- Three frames of 20 ms.
played : opus_packet_frames (0xfb ∷ 3 ∷ []) ≡ some 2880
unfolding opus_packet_frames total_frames frame_count many_frames per_frame
played = refl

opus_packet_frames-IsDuration_example : IsDuration 2880
opus_packet_frames-IsDuration_example = opus_packet_frames-IsDuration (0xfb ∷ 3 ∷ []) 2880 played

parse-head_case :
    parse (head 1 2 312 48000 65535 [])
    ≡ ok (record {
      version = 1;
      channels = 2;
      pre_skip = 312;
      input_sample_rate = 48000;
      output_gain = negsuc 0;
      mapping_family = 0;
    })
parse-head_case = parse-head 1 2 312 48000 65535 [] (omega arith) (omega arith) (omega arith)
