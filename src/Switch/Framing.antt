-- ===== src/Switch/Framing.antt =====
-- libs/mfcommon/mfcommon/iso8583/framing.py: messages behind their lengths, on a stream of bytes.
use microfinance_microservic.Common.{
  ℕ, zero, suc, ◌+◌, ◌-◌, ◌*◌, ◌/◌, ◌%◌, ◌^◌, ◌≤◌, ◌≡◌, Option, none, some, [], ◌∷◌, ◌++◌, ltb,
  if◌then◌else◌, length, nat_eq,
}
use microfinance_microservic.Iso8583.Bcd.{Bytes}

-- A socket: `recv`, and the bytes that are still to come until the peer closes. What comes is the
-- next bytes, at most as many as asked for, and some as long as there are any.
pub record Socket {ℓ} (S : Type ℓ) : Type ℓ where
  pub recv : ℕ → S → Bytes × S
  pub coming : S → Bytes
  pub recv_next : (n : ℕ) (s : S) → (recv n s).0 ++ coming (recv n s).1 ≡ coming s
  pub recv_most : (n : ℕ) (s : S) → length (recv n s).0 ≤ n
  pub recv_some : (n : ℕ) (s : S) → 1 ≤ n → 1 ≤ length (coming s) → 1 ≤ length (recv n s).0

-- What a read ends with: the bytes, a `ConnectionError`, or no fuel
pub data Read {ℓ} (S : Type ℓ) : Type ℓ where
  received : Bytes → S → Read S
  closed : Read S
  out_of_fuel : Read S

abbrev pub from_after : ℕ → Bytes → ℕ
from_after n [] = n
from_after n (b ∷ bytes) = from_after (256 * n + b) bytes

-- `int.from_bytes(header, byteorder="big")`
unfoldable pub from_bytes : Bytes → ℕ
from_bytes bytes = from_after 0 bytes

abbrev pub digits_of : ℕ → ℕ → Bytes
digits_of zero n = []
digits_of (suc k) n = digits_of k (n / 256) ++ n % 256 ∷ []

-- `n.to_bytes(k, byteorder="big")`, which raises for a number that has no room
unfoldable pub to_bytes : ℕ → ℕ → Option Bytes
to_bytes k n = if ltb n (256 ^ k) then some (digits_of k n) else none

module _ {ℓ} {S : Type ℓ} (socket : Socket S) where
  abbrev pub next_chunk : (ℕ → Bytes → S → Read S) → ℕ → Bytes → Bytes × S → Read S
  next_chunk loop n chunks ([], s) = closed
  next_chunk loop n chunks (b ∷ chunk, s) = loop (n - length (b ∷ chunk)) (chunks ++ (b ∷ chunk)) s

  -- The loop of `read_exact`, by fuel, with the number of bytes that are left
  unfoldable pub read_loop : ℕ → ℕ → Bytes → S → Read S
  read_loop zero left chunks s = if nat_eq left 0 then received chunks s else out_of_fuel
  read_loop (suc fuel) left chunks s =
      let more = next_chunk (read_loop fuel) left chunks (socket.recv left s) in
      if nat_eq left 0 then received chunks s else more

  unfoldable pub read_exact : ℕ → S → Read S
  unfolding read_loop
  read_exact num_bytes s = read_loop num_bytes num_bytes [] s

  abbrev read_body : Read S → Read S
  read_body (received header s) = read_exact (from_bytes header) s
  read_body closed = closed
  read_body out_of_fuel = out_of_fuel

  unfoldable pub read_framed_message : ℕ → S → Read S
  unfolding read_exact from_bytes
  read_framed_message prefix_bytes s = read_body (read_exact prefix_bytes s)

abbrev framed : Bytes → Option Bytes → Option Bytes
framed message none = none
framed message (some header) = some (header ++ message)

-- What `write_framed_message` hands to `sendall`
unfoldable pub write_framed_message : ℕ → Bytes → Option Bytes
unfolding to_bytes
write_framed_message prefix_bytes message = framed message (to_bytes prefix_bytes (length message))
