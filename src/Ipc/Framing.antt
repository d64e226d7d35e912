-- ===== src/Ipc/Framing.antt =====
-- crates/claw-pal/src/ipc/framing.rs: a frame is a length of four bytes, most significant first, and
-- the payload. A byte is a number below 256; the configured maximum is an argument; the stream is
-- given by the operations of `ByteStream`.
pub mod RoundTrip
use claw_kernel.Prelude.{
  ℕ, zero, suc, ◌+◌, ◌*◌, ◌/◌, ◌%◌, ◌≤◌, ◌<◌, ◌≡◌, Bool, true, false, Option, none, some, List, [],
  ◌∷◌, ◌++◌, if◌then◌else◌, ltb, length, take, drop, Result, ok, err, String,
}

pub data IpcError : Type 0 where
  connection_refused timeout broken_pipe invalid_message permission_denied : IpcError

-- `write_all` and `read_exact` of the futures crate; `pending` are the bytes written and not yet
-- read. A write may fail; a read fails when too few bytes are left.
pub record ByteStream (S : Type 0) : Type 0 where
  pub pending : S → List ℕ
  pub write_all : List ℕ → S → Bool × S
  pub read_exact : ℕ → S → Option (List ℕ) × S
  pub pending-write_all :
      (bytes : List ℕ) (s : S)
      → (write_all bytes s).0 ≡ true
      → pending (write_all bytes s).1 ≡ pending s ++ bytes
  pub read_exact-some :
      (n : ℕ) (s : S) → n ≤ length (pending s) → (read_exact n s).0 ≡ some (take n (pending s))
  pub pending-read_exact :
      (n : ℕ) (s : S) → n ≤ length (pending s) → pending (read_exact n s).1 ≡ drop n (pending s)

-- `u32::to_be_bytes` and `u32::from_be_bytes`.
unfoldable pub to_be_bytes : ℕ → List ℕ
to_be_bytes n = n / 16777216 % 256 ∷ n / 65536 % 256 ∷ n / 256 % 256 ∷ n % 256 ∷ []

unfoldable pub from_be_bytes : List ℕ → ℕ
from_be_bytes (a ∷ b ∷ c ∷ d ∷ []) = a * 16777216 + b * 65536 + c * 256 + d
from_be_bytes _ = 0

abbrev pub default_max_frame_size : ℕ
default_max_frame_size = 16777216

module _ {S : Type 0} (stream : ByteStream S) (max_frame_size : ℕ) where
  abbrev pub send_part : List ℕ → S → Result IpcError (Unit {0}) × S
  send_part bytes s =
      let (written, s') = stream.write_all bytes s in
      (if written then ok tt else err broken_pipe, s')

  -- The payload after the header, if the header was written.
  unfoldable pub after_header :
      List ℕ → Result IpcError (Unit {0}) × S → Result IpcError (Unit {0}) × S
  after_header bytes (ok _, s) = send_part bytes s
  after_header bytes (err e, s) = (err e, s)

  -- `data.len() as u32` wraps.
  unfoldable pub write_frame : List ℕ → S → Result IpcError (Unit {0}) × S
  unfolding after_header
  write_frame bytes s =
      if ltb max_frame_size (length bytes)
      then (err invalid_message, s)
      else after_header bytes (send_part (to_be_bytes (length bytes % 4294967296)) s)

  unfoldable pub received : Option (List ℕ) → Result IpcError (List ℕ)
  received none = err broken_pipe
  received (some bytes) = ok bytes

  unfoldable pub read_payload : ℕ → S → Result IpcError (List ℕ) × S
  unfolding received
  read_payload n s =
      if ltb max_frame_size n
      then (err invalid_message, s)
      else let (bytes, s') = stream.read_exact n s in (received bytes, s')

  unfoldable pub read_frame : S → Result IpcError (List ℕ) × S
  read_frame s =
      let (header, s') = stream.read_exact 4 s in
      elim header [ none ↦ (err broken_pipe, s') | some h ↦ read_payload (from_be_bytes h) s' ]
