-- ===== src/Examples/Frames.antt =====
-- Frames written to a buffer and read from it.
use claw_kernel.Prelude.{
  ℕ, ◌≡◌, refl, true, Option, none, some, List, [], ◌∷◌, ◌++◌, if◌then◌else◌, ltb, le→ltb, length,
  take, drop, ok, err, arith,
}
use claw_kernel.Ipc.Framing.{
  invalid_message, ByteStream, to_be_bytes, default_max_frame_size, write_frame, after_header,
  read_frame,
}
use claw_kernel.Ipc.Framing.RoundTrip.{
  write_frames, read_frames, frames_round_trip, oversized_header_refused,
}

abbrev read_buffer : ℕ → List ℕ → Option (List ℕ) × List ℕ
read_buffer n s = if ltb (length s) n then (none, s) else (some (take n s), drop n s)

abbrev buffer : ByteStream (List ℕ)
buffer = record {
  pending = λ s. s;
  write_all = λ bytes s. (true, s ++ bytes);
  read_exact = read_buffer;
  pending-write_all = λ bytes s h. refl;
  read_exact-some = λ n s h. rw (le→ltb (length s) n h);
  pending-read_exact = λ n s h. rw (le→ltb (length s) n h);
}

abbrev two_frames : List (List ℕ)
two_frames = (1 ∷ 2 ∷ 3 ∷ []) ∷ (9 ∷ []) ∷ []

written : (write_frames buffer default_max_frame_size two_frames []).0 ≡ ok tt
unfolding write_frames write_frame after_header
written = refl

frames_round_trip_example :
    ((read_frames buffer default_max_frame_size 2
        (write_frames buffer default_max_frame_size two_frames []).1).0
      ≡ ok two_frames)
    × (buffer.pending
          (read_frames buffer default_max_frame_size 2
            (write_frames buffer default_max_frame_size two_frames []).1).1
        ≡ [])
frames_round_trip_example =
    frames_round_trip buffer default_max_frame_size two_frames [] (omega arith) refl written

huge_header : buffer.pending (1 ∷ 0 ∷ 0 ∷ 1 ∷ 7 ∷ []) ≡ to_be_bytes 16777217 ++ 7 ∷ []
unfolding to_be_bytes
huge_header = refl

oversized_header_refused_example :
    ((read_frame buffer default_max_frame_size (1 ∷ 0 ∷ 0 ∷ 1 ∷ 7 ∷ [])).0 ≡ err invalid_message)
    × (buffer.pending (read_frame buffer default_max_frame_size (1 ∷ 0 ∷ 0 ∷ 1 ∷ 7 ∷ [])).1
        ≡ 7 ∷ [])
oversized_header_refused_example =
    oversized_header_refused buffer default_max_frame_size 16777217 (7 ∷ [])
      (1 ∷ 0 ∷ 0 ∷ 1 ∷ 7 ∷ []) (omega arith) (omega arith) huge_header
