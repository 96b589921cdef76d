-- ===== src/Switch/FramingRoundtrip.antt =====
-- What is framed is read again, whatever the chunks that the network delivers.
use microfinance_microservic.Common.{
  ℕ, zero, suc, ◌+◌, ◌-◌, ◌*◌, ◌/◌, ◌%◌, ◌^◌, ◌≤◌, ◌<◌, ◌≡◌, refl, sym, ap, ◌∙◌, false, nat_eq,
  none, some, [], ◌∷◌, ◌++◌, append-nil, ltb, length, take, drop, leb, ◌⊎◌, inl, inr, Bool-cases,
  take_all, drop_all, length-append, append_assoc, arith,
}
use microfinance_microservic.Iso8583.Bcd.{Bytes}
use microfinance_microservic.Switch.Framing.{
  Socket, Read, received, closed, from_after, from_bytes, digits_of, to_bytes, next_chunk,
  read_loop, read_exact, read_framed_message, write_framed_message,
}

pub length-digits_of : (k n : ℕ) → length (digits_of k n) ≡ k
length-digits_of zero n = refl
length-digits_of (suc k) n =
    rw (length-append (digits_of k (n / 256)) (n % 256 ∷ []), length-digits_of k (n / 256))
      (omega arith)

from_after-append :
    (n b : ℕ) (bytes : Bytes) → from_after n (bytes ++ b ∷ []) ≡ 256 * from_after n bytes + b
from_after-append n b [] = refl
from_after-append n b (c ∷ bytes) = from_after-append (256 * n + c) b bytes

pub from_after-digits_of : (k n : ℕ) → n < 256 ^ k → from_after 0 (digits_of k n) ≡ n
from_after-digits_of zero n h = ground arith
from_after-digits_of (suc k) n h =
    rw
      (
        from_after-append 0 (n % 256) (digits_of k (n / 256)),
        from_after-digits_of k (n / 256) (omega (arith, h)),
      )
      (omega arith)

minus_zero : (n : ℕ) → n - 0 ≡ n
minus_zero n = omega arith

suc_minus : (n m : ℕ) → suc n - suc m ≡ n - m
suc_minus n m = omega arith

suc_not_zero : (n : ℕ) → nat_eq (suc n) 0 ≡ false
suc_not_zero n = ground arith

take_past :
    (n : ℕ) (xs ys : Bytes) → length xs ≤ n → take n (xs ++ ys) ≡ xs ++ take (n - length xs) ys
take_past n [] ys h = rw (minus_zero n) refl
take_past zero (x ∷ xs) ys h = absurd (omega arith)
take_past (suc n) (x ∷ xs) ys h = rw (suc_minus n (length xs), take_past n xs ys (omega arith)) refl

drop_past : (n : ℕ) (xs ys : Bytes) → length xs ≤ n → drop n (xs ++ ys) ≡ drop (n - length xs) ys
drop_past n [] ys h = rw (minus_zero n) refl
drop_past zero (x ∷ xs) ys h = absurd (omega arith)
drop_past (suc n) (x ∷ xs) ys h = rw (suc_minus n (length xs)) (drop_past n xs ys (omega arith))

option_inj : (x y : Bytes) → some x ≡ some y → x ≡ y
option_inj x y e = cc

nothing_is_there : (x : Bytes) → none ≡ some x → ⊥
nothing_is_there x e = cc

module _ {ℓ} {S : Type ℓ} (socket : Socket S) where
  -- A read of `n` bytes after the chunks that are there already succeeds.
  abbrev Reads : (ℕ → Bytes → S → Read S) → ℕ → Bytes → Bytes → S → Type ℓ
  Reads loop n chunks all s =
      (s' : S) × (loop n chunks s ≡ received (chunks ++ take n all) s')
      × (socket.coming s' ≡ drop n all)

  next_lem :
      (loop : ℕ → Bytes → S → Read S) (left : ℕ) (chunks chunk all : Bytes) (t : S)
      → chunk ++ socket.coming t ≡ all
      → 1 ≤ length chunk
      → length chunk ≤ left
      → left ≤ length all
      → ((n : ℕ) (c : Bytes) (t : S)
          → n < left
          → n ≤ length (socket.coming t)
          → Reads loop n c (socket.coming t) t)
      → (s' : S) × (next_chunk socket loop left chunks (chunk, t)
          ≡ received (chunks ++ take left all) s')
        × (socket.coming s' ≡ drop left all)
  next_lem loop left chunks [] all t e some_come fit there reads = absurd (omega (arith, some_come))
  next_lem loop left chunks (b ∷ chunk) all t e some_come fit there reads =
      let split : length (b ∷ chunk) + length (socket.coming t) ≡ length all =
        sym (length-append (b ∷ chunk) (socket.coming t)) ∙ ap length e in
      let (s', read, rest) =
        reads (left - length (b ∷ chunk)) (chunks ++ (b ∷ chunk)) t (omega arith)
          (omega (arith, split, there)) in
      (
        s',
        read
            ∙ rw
                (
                  sym e,
                  take_past left (b ∷ chunk) (socket.coming t) fit,
                  append_assoc chunks (b ∷ chunk)
                      (take (left - length (b ∷ chunk)) (socket.coming t)),
                )
                refl,
        rest ∙ rw (sym e, drop_past left (b ∷ chunk) (socket.coming t) fit) refl,
      )

  -- The loop of `read_exact`, with enough fuel for the bytes that are left: the bytes it asks for,
  -- and the stream after them.
  read_loop_lem :
      (fuel left : ℕ) (chunks : Bytes) (s : S)
      → left ≤ fuel
      → left ≤ length (socket.coming s)
      → Reads (read_loop socket fuel) left chunks (socket.coming s) s
  unfolding read_loop
  read_loop_lem zero zero chunks s enough there = (s, rw (append-nil chunks) refl, refl)
  read_loop_lem zero (suc left) chunks s enough there = absurd (omega arith)
  read_loop_lem (suc fuel) zero chunks s enough there = (s, rw (append-nil chunks) refl, refl)
  read_loop_lem (suc fuel) (suc left) chunks s enough there =
      let (s', read, rest) =
        next_lem (read_loop socket fuel) (suc left) chunks (socket.recv (suc left) s).0
          (socket.coming s) (socket.recv (suc left) s).1 (socket.recv_next (suc left) s)
          (socket.recv_some (suc left) s (omega arith) (omega (arith, there)))
          (socket.recv_most (suc left) s) there
          (λ n c t lt h. read_loop_lem fuel n c t (omega arith) h) in
      (s', rw (suc_not_zero left) read, rest)

  -- What `read_exact` does on a stream that has the bytes.
  read_exact_lem :
      (n : ℕ) (s : S)
      → n ≤ length (socket.coming s)
      → (s' : S) × (read_exact socket n s ≡ received (take n (socket.coming s)) s')
        × (socket.coming s' ≡ drop n (socket.coming s))
  unfolding read_exact
  read_exact_lem n s there = read_loop_lem n n [] s (omega arith) there

  -- And on one that ends before.
  next_closed :
      (loop : ℕ → Bytes → S → Read S) (left : ℕ) (chunks chunk all : Bytes) (t : S)
      → chunk ++ socket.coming t ≡ all
      → length chunk ≤ left
      → length all < left
      → ((n : ℕ) (c : Bytes) (t : S)
          → n < left
          → length (socket.coming t) < n
          → loop n c t ≡ closed)
      → next_chunk socket loop left chunks (chunk, t) ≡ closed
  next_closed loop left chunks [] all t e fit short ends = refl
  next_closed loop left chunks (b ∷ chunk) all t e fit short ends =
      let split : length (b ∷ chunk) + length (socket.coming t) ≡ length all =
        sym (length-append (b ∷ chunk) (socket.coming t)) ∙ ap length e in
      ends (left - length (b ∷ chunk)) (chunks ++ (b ∷ chunk)) t (omega arith)
        (omega (arith, split, short))

  read_loop-closed :
      (fuel left : ℕ) (chunks : Bytes) (s : S)
      → left ≤ fuel
      → length (socket.coming s) < left
      → read_loop socket fuel left chunks s ≡ closed
  unfolding read_loop
  read_loop-closed fuel zero chunks s enough short = absurd (omega arith)
  read_loop-closed zero (suc left) chunks s enough short = absurd (omega arith)
  read_loop-closed (suc fuel) (suc left) chunks s enough short = rw (suc_not_zero left) (
      next_closed (read_loop socket fuel) (suc left) chunks (socket.recv (suc left) s).0
        (socket.coming s) (socket.recv (suc left) s).1 (socket.recv_next (suc left) s)
        (socket.recv_most (suc left) s) short
        (λ n c t lt h. read_loop-closed fuel n c t (omega arith) h))

  -- A read of an exact number of bytes ends, however the network cuts them: with the next bytes
  -- and the stream after them, or, where the peer has closed before, with a `ConnectionError`.
  pub read_exact_total :
      (n : ℕ) (s : S)
      → ((s' : S) × (n ≤ length (socket.coming s))
          × (read_exact socket n s ≡ received (take n (socket.coming s)) s')
          × (socket.coming s' ≡ drop n (socket.coming s)))
        ⊎ ((length (socket.coming s) < n) × (read_exact socket n s ≡ closed))
  unfolding read_exact
  read_exact_total n s = elim (Bool-cases (leb n (length (socket.coming s)))) [
    | inl e ↦
        let there : n ≤ length (socket.coming s) = ground arith in
        let (s', read, rest) = read_exact_lem n s there in inl (s', there, read, rest)
    | inr e ↦
        let short : length (socket.coming s) < n = ground arith in
        inr (short, read_loop-closed n n [] s (omega arith) short)
  ]

  -- A read of as many bytes as the first part of the stream has.
  read_part :
      (part later : Bytes) (s : S)
      → socket.coming s ≡ part ++ later
      → (s' : S) × (read_exact socket (length part) s ≡ received part s')
        × (socket.coming s' ≡ later)
  read_part part later s e =
      let (s', read, rest) =
        read_exact_lem (length part) s (omega (arith, ap length e, length-append part later)) in
      (
        s',
        read
            ∙ ap (λ bytes. received bytes s')
                (ap (take (length part)) e ∙ take_all (length part) part later refl),
        rest ∙ ap (drop (length part)) e ∙ drop_all (length part) part later refl,
      )

  read_back :
      (prefix_bytes : ℕ) (header message later : Bytes) (s : S)
      → length header ≡ prefix_bytes
      → from_bytes header ≡ length message
      → socket.coming s ≡ (header ++ message) ++ later
      → (s' : S) × (read_framed_message socket prefix_bytes s ≡ received message s')
        × (socket.coming s' ≡ later)
  unfolding read_framed_message
  read_back prefix_bytes header message later s size count e =
      let (s1, first, rest) =
        read_part header (message ++ later) s (e ∙ append_assoc header message later) in
      let (s2, second, rest') = read_part message later s1 rest in
      (s2, rw (sym size, first, count) second, rest')

  -- What `write_framed_message` writes of a message is read from a stream that starts with it, in
  -- whatever chunks it comes: the same message, and the stream after it.
  pub read_framed_message-write_framed_message :
      (prefix_bytes : ℕ) (message raw later : Bytes) (s : S)
      → write_framed_message prefix_bytes message ≡ some raw
      → socket.coming s ≡ raw ++ later
      → (s' : S) × (read_framed_message socket prefix_bytes s ≡ received message s')
        × (socket.coming s' ≡ later)
  unfolding write_framed_message to_bytes from_bytes
  read_framed_message-write_framed_message prefix_bytes message raw later s written e =
      let header : Bytes = digits_of prefix_bytes (length message) in
      elim (Bool-cases (ltb (length message) (256 ^ prefix_bytes))) [
        | inl fits ↦
            let same : header ++ message ≡ raw =
              option_inj (header ++ message) raw (rw fits at written) in
            read_back prefix_bytes header message later s
              (length-digits_of prefix_bytes (length message))
              (from_after-digits_of prefix_bytes (length message) (ground arith)) (rw same e)
        | inr long ↦ absurd (nothing_is_there raw (rw long at written))
      ]
