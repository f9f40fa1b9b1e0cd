-- ===== src/Codec/Stream/SmallReader.antt =====
-- generated/fraud.pb.cc: a small wire format for the tests and a reader for it.
pub mod Lawful
use mathlib.Core.Option.{some-injective}
use ml_distributed_fraud_eng.Common.{
  ◌+◌, ◌*◌, ℕ, zero, suc, ◌^◌, ◌%◌, ◌≤◌, ◌<◌, ◌≡◌, refl, sym, ap, Bool, true, false, ◌&&◌, List, [],
  ◌∷◌, ◌++◌, Option, none, some, arith, length, replicate, Option-cases, inl, inr, if◌then◌else◌,
  ltb, ltb→lt, subst,
}
use ml_distributed_fraud_eng.Codec.{Wire}
use ml_distributed_fraud_eng.Codec.Stream.{Reader}
use ml_distributed_fraud_eng.Codec.Stream.Fuel.{Advances}
use ml_distributed_fraud_eng.Codec.Stream.Laws.{Inverse, WellRead}

abbrev pub unknown_bytes : List (ℕ × List ℕ) → ℕ
unknown_bytes [] = 0
unknown_bytes ((tag, bytes) ∷ us) = suc (length bytes) + unknown_bytes us

-- Tags of one number, a length before a text, a double in the first of eight numbers, small integers.
abbrev pub small_wire : Wire
small_wire = record {
  write_string = λ n s. (8 * n + 2) ∷ length s ∷ s;
  write_double = λ n x. (8 * n + 1) ∷ x ∷ replicate 7 0;
  write_int64 = λ n x. (8 * n) ∷ x ∷ [];
  write_int32 = λ n x. (8 * n) ∷ x ∷ [];
  write_bool = λ n b. (8 * n) ∷ 1 ∷ [];
  write_enum = λ n x. (8 * n) ∷ x ∷ [];
  write_float = λ n x. (8 * n + 5) ∷ x ∷ replicate 3 0;
  write_message = λ n s. (8 * n + 2) ∷ length s ∷ s;
  write_unknown = λ u. u.0 ∷ u.1;
  string_size = λ s. 1 + length s;
  int64_size_plus_one = λ x. 2;
  int32_size_plus_one = λ x. 2;
  enum_size = λ x. 1;
  message_size = λ n. 1 + n;
  unknown_size = unknown_bytes;
}

abbrev pub in_front : ℕ → Option (List ℕ × List ℕ) → Option (List ℕ × List ℕ)
in_front b none = none
in_front b (some (s, rest)) = some (b ∷ s, rest)

-- The first items, where there are as many.
abbrev pub split : ℕ → List ℕ → Option (List ℕ × List ℕ)
split zero bytes = some ([], bytes)
split (suc n) [] = none
split (suc n) (b ∷ bs) = in_front b (split n bs)

abbrev pub is_ascii : List ℕ → Bool
is_ascii [] = true
is_ascii (c ∷ cs) = ltb c 128 && is_ascii cs

abbrev pub read_text : List ℕ → Option (List ℕ × List ℕ)
read_text [] = none
read_text (n ∷ bytes) = split n bytes

abbrev pub read_number : List ℕ → Option (ℕ × List ℕ)
read_number [] = none
read_number (x ∷ bytes) = if ltb x (2 ^ 64) then some (x, bytes) else none

abbrev pub read_eight : List ℕ → Option (ℕ × List ℕ)
read_eight (x ∷ a ∷ b ∷ c ∷ d ∷ e ∷ f ∷ g ∷ bytes) = read_number (x ∷ bytes)
read_eight bytes = none

abbrev pub keep_unknown : ℕ → ℕ → Option (List ℕ × List ℕ) → Option ((ℕ × List ℕ) × List ℕ)
keep_unknown tag n none = none
keep_unknown tag n (some (s, rest)) = some ((tag, n ∷ s), rest)

abbrev pub read_unknown : ℕ → List ℕ → Option ((ℕ × List ℕ) × List ℕ)
read_unknown tag [] = none
read_unknown tag (n ∷ bytes) = keep_unknown tag n (split n bytes)

abbrev pub read_first : List ℕ → Option (ℕ × List ℕ)
read_first [] = none
read_first (b ∷ bs) = some (b, bs)

abbrev pub read_number32 : List ℕ → Option (ℕ × List ℕ)
read_number32 [] = none
read_number32 (x ∷ bytes) = some (x % 2 ^ 32, bytes)

abbrev pub read_four : List ℕ → Option (ℕ × List ℕ)
read_four (x ∷ a ∷ b ∷ c ∷ bytes) = some (x % 2 ^ 32, bytes)
read_four bytes = none

abbrev pub small_reader : Reader
small_reader = record {
  read_tag = read_first;
  read_string = read_text;
  verify_utf8 = is_ascii;
  read_double = read_eight;
  read_float = read_four;
  read_varint32 = read_number32;
  read_varint64 = read_number;
  read_message = read_text;
  unknown_field_parse = read_unknown;
}
