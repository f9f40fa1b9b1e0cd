-- ===== src/Codec/Stream/Laws.antt =====
-- generated/fraud.pb.cc: what is documented of the functions that read and write one item.
use ml_distributed_fraud_eng.Common.{
  ℕ, ◌+◌, ◌*◌, ◌%◌, ◌^◌, ◌<◌, ◌==◌, ◌≡◌, true, false, List, [], ◌++◌, some,
}
use ml_distributed_fraud_eng.Codec.{Wire}
use ml_distributed_fraud_eng.Codec.Stream.{Reader}

-- The tag of a field written is read, and what stands behind it.
abbrev pub Tagged : Reader → List ℕ → ℕ → List ℕ → Type 0
Tagged reader bytes tag rest = reader.read_tag bytes ≡ some (tag, rest)

-- The documented round trips of single items, with anything behind them. Tags are the field's number and
-- the type of the item, 0 for a number, 1 for a double, 5 for a float and 2 for a string or a message. An
-- enumerator comes back as a number that is equal to it in 32 bits, true as one that is not zero.
pub record Inverse (wire : Wire) (reader : Reader) : Type 0 where
  pub string_back :
      (n : ℕ) (s rest : List ℕ)
      → n < 16
      → (p : List ℕ) × Tagged reader (wire.write_string n s ++ rest) (8 * n + 2) p
        × (reader.read_string p ≡ some (s, rest))
  pub double_back :
      (n x : ℕ) (rest : List ℕ)
      → n < 16
      → x < 2 ^ 64
      → (p : List ℕ) × Tagged reader (wire.write_double n x ++ rest) (8 * n + 1) p
        × (reader.read_double p ≡ some (x, rest))
  pub float_back :
      (n x : ℕ) (rest : List ℕ)
      → n < 16
      → x < 2 ^ 32
      → (p : List ℕ) × Tagged reader (wire.write_float n x ++ rest) (8 * n + 5) p
        × (reader.read_float p ≡ some (x, rest))
  pub int64_back :
      (n x : ℕ) (rest : List ℕ)
      → n < 16
      → x < 2 ^ 64
      → (p : List ℕ) × Tagged reader (wire.write_int64 n x ++ rest) (8 * n) p
        × (reader.read_varint64 p ≡ some (x, rest))
  pub int32_back :
      (n x : ℕ) (rest : List ℕ)
      → n < 16
      → x < 2 ^ 32
      → (p : List ℕ) × Tagged reader (wire.write_int32 n x ++ rest) (8 * n) p
        × (reader.read_varint32 p ≡ some (x, rest))
  pub bool_back :
      (n : ℕ) (rest : List ℕ)
      → n < 16
      → (p : List ℕ) × (v : ℕ) × Tagged reader (wire.write_bool n true ++ rest) (8 * n) p
        × (reader.read_varint64 p ≡ some (v, rest))
        × (v == 0 ≡ false)
  pub enum_back :
      (n x : ℕ) (rest : List ℕ)
      → n < 16
      → x < 2 ^ 32
      → (p : List ℕ) × (v : ℕ) × Tagged reader (wire.write_enum n x ++ rest) (8 * n) p
        × (reader.read_varint64 p ≡ some (v, rest))
        × (v % 2 ^ 32 ≡ x)
  pub message_back :
      (n : ℕ) (s rest : List ℕ)
      → n < 16
      → (p : List ℕ) × Tagged reader (wire.write_message n s ++ rest) (8 * n + 2) p
        × (reader.read_message p ≡ some (s, rest))
  pub unknown_back :
      (u : ℕ × List ℕ) (p q rest : List ℕ)
      → reader.unknown_field_parse u.0 p ≡ some (u, q)
      → (p' : List ℕ) × Tagged reader (wire.write_unknown u ++ rest) u.0 p'
        × (reader.unknown_field_parse u.0 p' ≡ some (u, rest))

abbrev pub Valid : Reader → List ℕ → Type 0
Valid reader s = reader.verify_utf8 s ≡ true

-- A field with such a tag, of a message that does not know it.
abbrev pub Kept : Reader → (ℕ → Type 0) → ℕ × List ℕ → Type 0
Kept reader IsUnusual u =
    IsUnusual u.0 × (p : List ℕ) × (q : List ℕ) × (reader.unknown_field_parse u.0 p ≡ some (u, q))

-- The empty text is in UTF-8, numbers fit their widths, and an unknown field is kept by the tag it was
-- read for.
pub record WellRead (reader : Reader) : Type 0 where
  pub nil_Valid : reader.verify_utf8 [] ≡ true
  pub double_lt :
      (bytes : List ℕ) (x : ℕ) (rest : List ℕ)
      → reader.read_double bytes ≡ some (x, rest)
      → x < 2 ^ 64
  pub float_lt :
      (bytes : List ℕ) (x : ℕ) (rest : List ℕ)
      → reader.read_float bytes ≡ some (x, rest)
      → x < 2 ^ 32
  pub varint32_lt :
      (bytes : List ℕ) (x : ℕ) (rest : List ℕ)
      → reader.read_varint32 bytes ≡ some (x, rest)
      → x < 2 ^ 32
  pub varint_lt :
      (bytes : List ℕ) (x : ℕ) (rest : List ℕ)
      → reader.read_varint64 bytes ≡ some (x, rest)
      → x < 2 ^ 64
  pub unknown_tag :
      (tag : ℕ) (bytes : List ℕ) (u : ℕ × List ℕ) (rest : List ℕ)
      → reader.unknown_field_parse tag bytes ≡ some (u, rest)
      → u.0 ≡ tag
