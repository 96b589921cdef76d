-- ===== src/Iso8583/FilesRoundtrip.antt =====
-- Messages that are written to a file and read from it again.
use microfinance_microservic.Common.{
  ℕ, zero, suc, ◌+◌, ◌≤◌, ◌<◌, ◌^◌, ◌≡◌, refl, sym, ap, ◌∙◌, true, false, some, List, [], ◌∷◌, ◌++◌,
  length, length-append, append-nil, nat_eq, ltb, take_all, drop_all, All, arith, Bool-cases, inl,
  inr, ltb→lt,
}
use microfinance_microservic.Iso8583.Bcd.{Bytes, Text}
use microfinance_microservic.Iso8583.Message.{
  Message, numbers, in_order, build_message, parse_message,
}
use microfinance_microservic.Iso8583.BcdRoundtrip.{IsDecimal}
use microfinance_microservic.Iso8583.FieldRoundtrip.{FitsField}
use microfinance_microservic.Iso8583.MessageRoundtrip.{Distinct, parse_message-build_message}
use microfinance_microservic.Switch.Framing.{from_bytes, to_bytes, digits_of}
use microfinance_microservic.Switch.FramingRoundtrip.{length-digits_of, from_after-digits_of}
use microfinance_microservic.Iso8583.Files.{
  finished, raised, write_messages_to_file, iter_loop, iter_messages_from_file,
}

-- A message that is built: its type is four digits, and its fields are of the catalog and fit it.
abbrev pub IsBuilt : Text × List (ℕ × Text) → Type 0
IsBuilt (mti, fields) =
    All IsDecimal mti × (length mti ≡ 4) × All FitsField fields × Distinct (numbers fields)

abbrev pub sorted : List (Text × List (ℕ × Text)) → List Message
sorted [] = []
sorted ((mti, fields) ∷ messages) = record { mti = mti; fields = in_order fields } ∷ sorted messages

-- One message, behind its length, is read.
iter_one :
    (fuel k : ℕ) (header raw later : Bytes) (m : Message) (n : ℕ)
    → 1 ≤ k
    → length header ≡ k
    → from_bytes header ≡ length raw
    → parse_message raw ≡ some (m, n)
    → iter_loop (suc fuel) k (header ++ (raw ++ later))
      ≡ (m ∷ (iter_loop fuel k later).0, (iter_loop fuel k later).1)
unfolding iter_loop
iter_one fuel k header raw later m n some_prefix size count parsed =
    let some_bytes : nat_eq (length (header ++ (raw ++ later))) 0 ≡ false =
      ground (arith, length-append header (raw ++ later), size, some_prefix) in
    rw
      (
        some_bytes,
        take_all k header (raw ++ later) size,
        drop_all k header (raw ++ later) size,
        count,
        take_all (length raw) raw later refl,
        drop_all (length raw) raw later refl,
        parsed,
      )
      refl

-- What is written of a message that is built, if nothing is raised
write_step :
    (k : ℕ) (mti : Text) (fields : List (ℕ × Text)) (messages : List (Text × List (ℕ × Text)))
    (raw : Bytes)
    → build_message mti fields ≡ some raw
    → (write_messages_to_file true k ((mti, fields) ∷ messages)).1 ≡ finished
    → (length raw < 256 ^ k)
      × (write_messages_to_file true k ((mti, fields) ∷ messages) ≡ (
        digits_of k (length raw) ++ (raw ++ (write_messages_to_file true k messages).0),
        (write_messages_to_file true k messages).1,
      ))
unfolding write_messages_to_file to_bytes
write_step k mti fields messages raw built h = elim (Bool-cases (ltb (length raw) (256 ^ k))) [
  | inl fits ↦ (ltb→lt (length raw) (256 ^ k) fits, rw (built, fits) refl)
  | inr long ↦ let e : raised ≡ finished = rw (built, long) at h in cc
]

write_size :
    (k : ℕ) (raw later : Bytes)
    → (k ≤ length (digits_of k (length raw) ++ (raw ++ later)))
      × (k + length later ≤ length (digits_of k (length raw) ++ (raw ++ later)))
write_size k raw later =
    let size = length-digits_of k (length raw) in
    let whole = length-append (digits_of k (length raw)) (raw ++ later) in
    (omega (arith, size, whole), omega (arith, size, whole, length-append raw later))

iter_written :
    (k : ℕ) (messages : List (Text × List (ℕ × Text))) (fuel : ℕ)
    → 1 ≤ k
    → All IsBuilt messages
    → (write_messages_to_file true k messages).1 ≡ finished
    → length (write_messages_to_file true k messages).0 ≤ fuel
    → iter_loop fuel k (write_messages_to_file true k messages).0 ≡ (sorted messages, finished)
unfolding write_messages_to_file iter_loop
iter_written k [] zero some_prefix builts h enough = refl
iter_written k [] (suc fuel) some_prefix builts h enough = refl
iter_written k ((mti, fields) ∷ messages) zero some_prefix ((digits, four, fits, distinct), builts)
      h enough =
    let (raw, built, parsed) =
      parse_message-build_message mti fields [] digits four fits distinct in
    let (room, step) = write_step k mti fields messages raw built h in
    let (longer, later) = write_size k raw (write_messages_to_file true k messages).0 in
    let size : length (write_messages_to_file true k ((mti, fields) ∷ messages)).0
        ≡ length (digits_of k (length raw) ++ (raw ++ (write_messages_to_file true k messages).0)) =
      ap (λ r. length r.0) step in
    let z : ⊥ = omega (arith, size, enough, longer, some_prefix) in elim z [ ]
iter_written k ((mti, fields) ∷ messages) (suc fuel) some_prefix
      ((digits, four, fits, distinct), builts) h enough =
    let (raw, built, parsed) =
      parse_message-build_message mti fields [] digits four fits distinct in
    let (room, step) = write_step k mti fields messages raw built h in
    let (longer, later) = write_size k raw (write_messages_to_file true k messages).0 in
    let size : length (write_messages_to_file true k ((mti, fields) ∷ messages)).0
        ≡ length (digits_of k (length raw) ++ (raw ++ (write_messages_to_file true k messages).0)) =
      ap (λ r. length r.0) step in
    let rest =
      iter_written k messages fuel some_prefix builts (sym (ap (λ r. r.1) step) ∙ h)
        (omega (arith, size, enough, longer, later, some_prefix)) in
    ap (λ r. iter_loop (suc fuel) k r.0) step
    ∙ iter_one fuel k (digits_of k (length raw)) raw (write_messages_to_file true k messages).0
        (record { mti = mti; fields = in_order fields }) (length raw) some_prefix
        (length-digits_of k (length raw)) (from_after-digits_of k (length raw) room)
        (rw (append-nil raw) at parsed)
    ∙ ap (λ r. (record { mti = mti; fields = in_order fields } ∷ r.0, r.1)) rest

-- Messages of the catalog's fields that are written to a file without an error are read from it again, with
-- their fields in the order of their numbers, and nothing after them: the loop ends. The length before a
-- message has a byte at least.
pub iter_messages_from_file-write_messages_to_file :
    (k : ℕ) (messages : List (Text × List (ℕ × Text)))
    → 1 ≤ k
    → All IsBuilt messages
    → (write_messages_to_file true k messages).1 ≡ finished
    → iter_messages_from_file true k (write_messages_to_file true k messages).0
      ≡ (sorted messages, finished)
unfolding iter_messages_from_file
iter_messages_from_file-write_messages_to_file k messages some_prefix builts h =
    iter_written k messages (length (write_messages_to_file true k messages).0) some_prefix builts h
      (omega arith)
