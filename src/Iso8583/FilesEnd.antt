-- ===== src/Iso8583/FilesEnd.antt =====
-- Reading a file ends, whatever is in it.
use microfinance_microservic.Common.{
  ℕ, zero, suc, ◌≤◌, ◌≡◌, ◌≢◌, refl, Bool, true, false, Option, none, some, List, [], ◌∷◌, length,
  nat_eq, take, drop, arith,
}
use microfinance_microservic.Iso8583.Bcd.{Bytes}
use microfinance_microservic.Iso8583.Bitmap.{read_bitmap}
use microfinance_microservic.Iso8583.Message.{Message, parse_message}
use microfinance_microservic.Switch.Framing.{from_bytes}
use microfinance_microservic.Iso8583.Files.{
  Ending, finished, out_of_fuel, yield_parsed, iter_loop, iter_messages_from_file,
}

no_message : parse_message [] ≡ none
unfolding parse_message read_bitmap
no_message = refl

yield_ends :
    (o : Option (Message × ℕ)) (later : List Message × Ending)
    → later.1 ≢ out_of_fuel
    → (yield_parsed o later).1 ≢ out_of_fuel
yield_ends none later h = λ e. cc
yield_ends (some m) later h = h

nothing_ends :
    (o : Option (Message × ℕ)) (later : List Message × Ending)
    → o ≡ none
    → (yield_parsed o later).1 ≢ out_of_fuel
nothing_ends none later h = λ e. cc
nothing_ends (some m) later h = cc

drop_shrinks : (n : ℕ) (bytes : Bytes) → length (drop n bytes) ≤ length bytes
drop_shrinks zero bytes = omega arith
drop_shrinks (suc n) [] = omega arith
drop_shrinks (suc n) (b ∷ bytes) = omega (arith, drop_shrinks n bytes)

more_left : (n : ℕ) → nat_eq (suc n) 0 ≡ false
more_left n = ground arith

loop_ends :
    (fuel k : ℕ) (bytes : Bytes) → length bytes ≤ fuel → (iter_loop fuel k bytes).1 ≢ out_of_fuel
unfolding iter_loop
loop_ends zero k [] h = λ e. cc
loop_ends zero k (b ∷ bytes) h = let z : ⊥ = omega (arith, h) in elim z [ ]
loop_ends (suc fuel) k [] h = λ e. cc
loop_ends (suc fuel) zero (b ∷ bytes) h = rw (more_left (length bytes)) (
    nothing_ends (parse_message [])
      (iter_loop fuel 0 (drop (from_bytes (take 0 (b ∷ bytes))) (b ∷ bytes))) no_message)
loop_ends (suc fuel) (suc k) (b ∷ bytes) h = rw (more_left (length bytes)) (
    yield_ends (parse_message (take (from_bytes (take (suc k) (b ∷ bytes))) (drop k bytes)))
      (iter_loop fuel (suc k) (drop (from_bytes (take (suc k) (b ∷ bytes))) (drop k bytes)))
      (loop_ends fuel (suc k) (drop (from_bytes (take (suc k) (b ∷ bytes))) (drop k bytes)) (
        omega (
          arith,
          h,
          drop_shrinks k bytes,
          drop_shrinks (from_bytes (take (suc k) (b ∷ bytes))) (drop k bytes),
        ))))

-- Reading the messages of a file ends, whatever the bytes of the file are and however long a length is: the
-- messages are read to the last one, or one of them raises.
pub iter_messages_from_file-ends :
    (length_prefixed : Bool) (k : ℕ) (bytes : Bytes)
    → (iter_messages_from_file length_prefixed k bytes).1 ≢ out_of_fuel
unfolding iter_messages_from_file
iter_messages_from_file-ends true k bytes = loop_ends (length bytes) k bytes (omega arith)
iter_messages_from_file-ends false k bytes =
    yield_ends (parse_message bytes) ([], finished) (λ e. cc)
