-- ===== src/Ipc/Framing/RoundTrip.antt =====
-- Frames of crates/claw-pal/src/ipc/framing.rs written and read again.
use claw_kernel.Prelude.{
  ℕ, zero, suc, ◌%◌, ◌≤◌, ◌<◌, ◌≡◌, refl, sym, ap, ◌∙◌, false, List, [], ◌∷◌, ◌++◌, ltb, length,
  Result, ok, err, arith, Bool-cases, inl, inr, le→ltb, lt→ltb, Result-cases, length-append,
  take-append_self, drop-append_self,
}
use mathlib.Core.List.{append-nil, append_assoc}
use claw_kernel.Ipc.Framing.{
  IpcError, invalid_message, ByteStream, to_be_bytes, from_be_bytes, write_frame, read_payload,
  read_frame, send_part, after_header, received,
}

be_round_trip : (n : ℕ) → n < 4294967296 → from_be_bytes (to_be_bytes n) ≡ n
unfolding to_be_bytes from_be_bytes
be_round_trip n h = omega arith

-- The bytes of a frame.
unfoldable pub encode : List ℕ → List ℕ
encode bytes = to_be_bytes (length bytes) ++ bytes

module _ {S : Type 0} (stream : ByteStream S) (max_frame_size : ℕ) where
  -- One frame after the other; the first error ends it.
  unfoldable pub write_frames : List (List ℕ) → S → Result IpcError (Unit {0}) × S
  write_frames [] s = (ok tt, s)
  write_frames (bytes ∷ more) s =
      let (written, s') = write_frame stream max_frame_size bytes s in
      elim written [ err e ↦ (err e, s') | ok _ ↦ write_frames more s' ]

  unfoldable pub read_frames : ℕ → S → Result IpcError (List (List ℕ)) × S
  read_frames zero s = (ok [], s)
  read_frames (suc n) s =
      let (frame, s') = read_frame stream max_frame_size s in
      elim frame [
        | err e ↦ (err e, s')
        | ok bytes ↦
            let (rest, s'') = read_frames n s' in
            elim rest [ err e ↦ (err e, s'') | ok frames ↦ (ok (bytes ∷ frames), s'') ]
      ]

  unfoldable pub encode_all : List (List ℕ) → List ℕ
  encode_all [] = []
  encode_all (bytes ∷ more) = encode bytes ++ encode_all more

  after_header-ok :
      (header bytes : List ℕ) (s : S)
      → (after_header stream max_frame_size bytes (send_part stream max_frame_size header s)).0
        ≡ ok tt
      → stream.pending
          (after_header stream max_frame_size bytes (send_part stream max_frame_size header s)).1
        ≡ stream.pending s ++ (header ++ bytes)
  unfolding after_header
  after_header-ok header bytes s done = elim (Bool-cases (stream.write_all header s).0) [
    | inr failed ↦ absurd (cc (rw (failed, after_header) at done))
    | inl sent ↦ elim (Bool-cases (stream.write_all bytes (stream.write_all header s).1).0) [
      | inr failed ↦ absurd (cc (rw (sent, after_header, failed) at done))
      | inl sent_all ↦
          rw (sent, after_header)
            (stream.pending-write_all bytes (stream.write_all header s).1 sent_all
              ∙ ap (λ l. l ++ bytes) (stream.pending-write_all header s sent)
              ∙ append_assoc (stream.pending s) header bytes)
    ]
  ]

  -- What a written frame leaves: it fitted, and its bytes stand at the end of the stream.
  write_frame-ok :
      (bytes : List ℕ) (s : S)
      → max_frame_size < 4294967296
      → (write_frame stream max_frame_size bytes s).0 ≡ ok tt
      → (length bytes ≤ max_frame_size)
        × (stream.pending (write_frame stream max_frame_size bytes s).1
            ≡ stream.pending s ++ encode bytes)
  unfolding write_frame encode
  write_frame-ok bytes s w done = elim (Bool-cases (ltb max_frame_size (length bytes))) [
    | inl big ↦ absurd (cc (rw big at done))
    | inr fits ↦ (
      at_most fits,
      rw fits (
          rw (no_wrap (at_most fits)) (
            after_header-ok (to_be_bytes (length bytes)) bytes s
              (rw (no_wrap (at_most fits)) at (rw fits at done)))),
    )
  ]
    where
      at_most : ltb max_frame_size (length bytes) ≡ false → length bytes ≤ max_frame_size
      at_most fits = ground arith

      no_wrap : length bytes ≤ max_frame_size → length bytes % 4294967296 ≡ length bytes
      no_wrap le = omega arith

  read_payload-ok :
      (n : ℕ) (bytes rest : List ℕ) (s : S)
      → n ≡ length bytes
      → length bytes ≤ max_frame_size
      → stream.pending s ≡ bytes ++ rest
      → ((read_payload stream max_frame_size n s).0 ≡ ok bytes)
        × (stream.pending (read_payload stream max_frame_size n s).1 ≡ rest)
  unfolding read_payload received
  read_payload-ok n bytes rest s e fits p = rw (le→ltb max_frame_size n (omega (arith, e))) (
    rw (stream.read_exact-some n s enough, p, e, take-append_self bytes rest),
    rw (stream.pending-read_exact n s enough, p, e, drop-append_self bytes rest),
  )
    where
      enough : n ≤ length (stream.pending s)
      enough = rw p (omega (arith, e, length-append bytes rest))

  read_frame-ok :
      (bytes rest : List ℕ) (s : S)
      → max_frame_size < 4294967296
      → length bytes ≤ max_frame_size
      → stream.pending s ≡ encode bytes ++ rest
      → ((read_frame stream max_frame_size s).0 ≡ ok bytes)
        × (stream.pending (read_frame stream max_frame_size s).1 ≡ rest)
  unfolding read_frame encode to_be_bytes
  read_frame-ok bytes rest s w fits p =
      rw (stream.read_exact-some 4 s enough, p, read_frame)
        (read_payload-ok _ bytes rest (stream.read_exact 4 s).1
          (be_round_trip (length bytes) (omega arith)) fits
          (stream.pending-read_exact 4 s enough ∙ rw p refl))
    where
      enough : 4 ≤ length (stream.pending s)
      enough = rw p (omega arith)

  abbrev AllFit : List (List ℕ) → Type 0
  AllFit [] = Unit {0}
  AllFit (bytes ∷ more) = (length bytes ≤ max_frame_size) × AllFit more

  write_frames-ok :
      (frames : List (List ℕ)) (s : S)
      → max_frame_size < 4294967296
      → (write_frames frames s).0 ≡ ok tt
      → AllFit frames
        × (stream.pending (write_frames frames s).1 ≡ stream.pending s ++ encode_all frames)
  unfolding write_frames encode_all
  write_frames-ok [] s w done = (tt, sym (append-nil (stream.pending s)))
  write_frames-ok (bytes ∷ more) s w done =
      elim (Result-cases (write_frame stream max_frame_size bytes s).0) [
        | inr (e, failed) ↦ absurd (cc (rw (failed, write_frames) at done))
        | inl (_, sent) ↦
            let (fits, one) = write_frame-ok bytes s w sent in
            let (all_fit, others) =
              write_frames-ok more (write_frame stream max_frame_size bytes s).1 w
                (rw (sent, write_frames) at done) in
            (
              (fits, all_fit),
              rw (sent, write_frames)
                  (others
                    ∙ ap (λ l. l ++ encode_all more) one
                    ∙ append_assoc (stream.pending s) (encode bytes) (encode_all more)),
            )
      ]

  read_frames-ok :
      (frames : List (List ℕ)) (rest : List ℕ) (s : S)
      → max_frame_size < 4294967296
      → AllFit frames
      → stream.pending s ≡ encode_all frames ++ rest
      → ((read_frames (length frames) s).0 ≡ ok frames)
        × (stream.pending (read_frames (length frames) s).1 ≡ rest)
  unfolding read_frames encode_all
  read_frames-ok [] rest s w fit p = (refl, p)
  read_frames-ok (bytes ∷ more) rest s w (fits, fit) p =
      let (got, left) =
        read_frame-ok bytes (encode_all more ++ rest) s w fits
          (p ∙ append_assoc (encode bytes) (encode_all more) rest) in
      let (gots, lefts) =
        read_frames-ok more rest (read_frame stream max_frame_size s).1 w fit left in
      rw (got, read_frames) (rw (gots, read_frames) (refl, lefts))

  -- If frames are written to an empty stream without an error, for a maximal size that fits u32,
  -- then as many reads give the same payloads in the same order without an error, and leave the
  -- stream empty.
  pub frames_round_trip :
      (frames : List (List ℕ)) (s : S)
      → max_frame_size < 4294967296
      → stream.pending s ≡ []
      → (write_frames frames s).0 ≡ ok tt
      → let (read, s') = read_frames (length frames) (write_frames frames s).1 in
        (read ≡ ok frames) × (stream.pending s' ≡ [])
  frames_round_trip frames s w empty done =
      let (fit, p) = write_frames-ok frames s w done in
      read_frames-ok frames [] (write_frames frames s).1 w fit
        (p ∙ ap (λ l. l ++ encode_all frames) empty ∙ sym (append-nil (encode_all frames)))

  -- A frame whose header declares a size above the maximal one is refused after the four bytes of
  -- the header, and its payload is not read.
  pub oversized_header_refused :
      (n : ℕ) (rest : List ℕ) (s : S)
      → n < 4294967296
      → max_frame_size < n
      → stream.pending s ≡ to_be_bytes n ++ rest
      → ((read_frame stream max_frame_size s).0 ≡ err invalid_message)
        × (stream.pending (read_frame stream max_frame_size s).1 ≡ rest)
  unfolding read_frame read_payload to_be_bytes
  oversized_header_refused n rest s w big p =
      rw (stream.read_exact-some 4 s enough, p, read_frame)
        (rw (be_round_trip n w) (
          rw (lt→ltb max_frame_size n big)
            (refl, stream.pending-read_exact 4 s enough ∙ rw p refl)))
    where
      enough : 4 ≤ length (stream.pending s)
      enough = rw p (omega arith)
