-- ===== src/Codec/Stream.antt =====
-- generated/fraud.pb.cc: what the four functions `_InternalParse` share. The functions of Protocol buffers
-- that read one item are parameters; each gives the bytes that follow, or `none` where it returns a null
-- pointer or runs past the end. The function of one field is a parameter of the loop.
pub mod Fuel
pub mod Laws
pub mod Step
pub mod Items
pub mod Keeps
pub mod Fails
pub mod SmallReader
use ml_distributed_fraud_eng.Common.{
  ℕ, zero, suc, ◌/◌, ◌%◌, Bool, ◌&&◌, ◌||◌, List, [], ◌∷◌, Option, none, some, ◌==◌, if◌then◌else◌,
  length,
}

pub record Reader : Type 0 where
  pub read_tag : List ℕ → Option (ℕ × List ℕ)  -- ReadTag
  pub read_string : List ℕ → Option (List ℕ × List ℕ)  -- InlineGreedyStringParser
  pub verify_utf8 : List ℕ → Bool  -- VerifyUTF8
  pub read_double : List ℕ → Option (ℕ × List ℕ)  -- UnalignedLoad<double>
  pub read_float : List ℕ → Option (ℕ × List ℕ)  -- UnalignedLoad<float>
  pub read_varint32 : List ℕ → Option (ℕ × List ℕ)  -- ReadVarint32
  pub read_varint64 : List ℕ → Option (ℕ × List ℕ)  -- ReadVarint64
  pub read_message : List ℕ → Option (List ℕ × List ℕ)  -- the bytes that ParseMessage hands on
  pub unknown_field_parse : ℕ → List ℕ → Option ((ℕ × List ℕ) × List ℕ)  -- UnknownFieldParse

-- `case field: if (static_cast<uint8_t>(tag) == byte) … else goto handle_unusual`
abbrev pub case {ℓ} : {Slot : Type ℓ} → Slot → ℕ → ℕ → ℕ → Slot → Slot → Slot
case unusual tag field byte slot other =
    if tag / 8 == field then (if tag % 256 == byte then slot else unusual) else other

-- `(tag == 0) || ((tag & 7) == 4)`
abbrev pub ends_group : ℕ → Bool
ends_group tag = (tag == 0) || (tag % 8 == 4)

module _ {M : Type 0} (reader : Reader) where
  -- A string, its UTF-8 checked, and the message with it.
  unfoldable pub text_step : (List ℕ → M) → Option (List ℕ × List ℕ) → Option (M × List ℕ)
  text_step put none = none
  text_step put (some (s, rest)) = if reader.verify_utf8 s then some (put s, rest) else none

  unfoldable pub number_step : (ℕ → M) → Option (ℕ × List ℕ) → Option (M × List ℕ)
  number_step put none = none
  number_step put (some (x, rest)) = some (put x, rest)

  put_part : {N : Type 0} → (N → M) → List ℕ → Option N → Option (M × List ℕ)
  put_part put rest none = none
  put_part put rest (some part) = some (put part, rest)

  -- A part of the message that is itself a message: `parse` reads the bytes that `ParseMessage` hands on
  -- into the part that is there, or into a new one.
  unfoldable pub message_step :
      {N : Type 0} → (List ℕ → Option N) → (N → M) → Option (List ℕ × List ℕ) → Option (M × List ℕ)
  unfolding put_part
  message_step parse put none = none
  message_step parse put (some (s, rest)) = put_part put rest (parse s)

  -- The message with an unknown field.
  unfoldable pub unknown_step :
      (ℕ × List ℕ → M) → Option ((ℕ × List ℕ) × List ℕ) → Option (M × List ℕ)
  unknown_step put none = none
  unknown_step put (some (u, rest)) = some (put u, rest)

  -- `handle_unusual`. A tag that ends a group ends the loop, and `ParseFromString` then fails.
  unfoldable pub unusual_step : ℕ → List ℕ → (ℕ × List ℕ → M) → Option (M × List ℕ)
  unfolding unknown_step
  unusual_step tag p put =
      if ends_group tag then none else unknown_step put (reader.unknown_field_parse tag p)

module _ {M : Type 0} (reader : Reader) (field : ℕ → List ℕ → M → Option (M × List ℕ)) where
  -- One turn of the loop, where bytes are left: the tag, and the field behind it.
  pub turn_of : Option (ℕ × List ℕ) → M → Option (M × List ℕ)
  turn_of none m = none
  turn_of (some (tag, p)) m = field tag p m

  unfoldable pub turn : List ℕ → M → Option (M × List ℕ)
  unfolding turn_of
  turn bytes m = turn_of (reader.read_tag bytes) m

  -- The loop. Its fuel is above the number of bytes; without fuel it would fail.
  unfoldable pub loop : ℕ → List ℕ → M → Option M
  loop zero bytes m = none
  loop (suc fuel) [] m = some m
  loop (suc fuel) (b ∷ bs) m = elim (turn (b ∷ bs) m) [
    | none ↦ none
    | some (m', rest) ↦ loop fuel rest m'
  ]

  -- `_InternalParse` of all bytes into a message.
  abbrev pub run : List ℕ → M → Option M
  run bytes m = loop (suc (length bytes)) bytes m
