-- ===== src/Codec/Sizes/Fields.antt =====
-- generated/fraud.pb.cc: the sizes of single fields beside the bytes that are written for them.
use ml_distributed_fraud_eng.Common.{
  ap, ◌∙◌, Option, none, some, ℕ, Bool, true, false, ◌+◌, ◌<◌, ◌≡◌, refl, List, [], ◌∷◌, ◌++◌,
  length, length-append, arith, ◌==◌, if◌then◌else◌,
}
use ml_distributed_fraud_eng.Codec.Request.{part_size}
use mathlib.Core.Option
use ml_distributed_fraud_eng.Codec.{
  Wire, int32_field, bool_field, string_field, string_bytes, double_field, int64_field, enum_field,
  write_unknowns, float_field, message_field,
}

-- The documented sizes: with a field number below 16 the tag is one byte.
pub record Sized (wire : Wire) : Type 0 where
  pub string_sized :
      (n : ℕ) (s : List ℕ) → n < 16 → length (wire.write_string n s) ≡ 1 + wire.string_size s
  pub double_sized : (n x : ℕ) → n < 16 → length (wire.write_double n x) ≡ 9
  pub int64_sized : (n x : ℕ) → n < 16 → length (wire.write_int64 n x) ≡ wire.int64_size_plus_one x
  pub int32_sized : (n x : ℕ) → n < 16 → length (wire.write_int32 n x) ≡ wire.int32_size_plus_one x
  pub bool_sized : (n : ℕ) (b : Bool) → n < 16 → length (wire.write_bool n b) ≡ 2
  pub float_sized : (n x : ℕ) → n < 16 → length (wire.write_float n x) ≡ 5
  pub message_sized :
      (n : ℕ) (s : List ℕ)
      → n < 16
      → length (wire.write_message n s) ≡ 1 + wire.message_size (length s)
  pub unknown_none : wire.unknown_size [] ≡ 0
  pub unknown_sized :
      (u : ℕ × List ℕ) (us : List (ℕ × List ℕ))
      → wire.unknown_size (u ∷ us) ≡ length (wire.write_unknown u) + wire.unknown_size us
  pub enum_sized : (n x : ℕ) → n < 16 → length (wire.write_enum n x) ≡ 1 + wire.enum_size x

pub append-size :
    (xs ys : List ℕ) (a b : ℕ) → length xs ≡ a → length ys ≡ b → length (xs ++ ys) ≡ a + b
append-size xs ys a b h k = omega (arith, length-append xs ys)

module _ (wire : Wire) (sized : Sized wire) where
  pub string_field-length :
      (n : ℕ) (s : List ℕ) → n < 16 → length (string_field wire n s) ≡ string_bytes wire s
  unfolding string_field string_bytes
  string_field-length n [] h = refl
  string_field-length n (c ∷ cs) h = sized.string_sized n (c ∷ cs) h

  pub double_field-length :
      (n x : ℕ) → n < 16 → length (double_field wire n x) ≡ (if x == 0 then 0 else 1 + 8)
  unfolding double_field
  double_field-length n x h = ground (arith, sized.double_sized n x h)

  pub int64_field-length :
      (n x : ℕ)
      → n < 16
      → length (int64_field wire n x) ≡ (if x == 0 then 0 else wire.int64_size_plus_one x)
  unfolding int64_field
  int64_field-length n x h = ground (arith, sized.int64_sized n x h)

  pub enum_field-length :
      (n x : ℕ)
      → n < 16
      → length (enum_field wire n x) ≡ (if x == 0 then 0 else 1 + wire.enum_size x)
  unfolding enum_field
  enum_field-length n x h = ground (arith, sized.enum_sized n x h)

  pub write_unknowns-length :
      (us : List (ℕ × List ℕ)) → length (write_unknowns wire us) ≡ wire.unknown_size us
  unfolding write_unknowns
  write_unknowns-length [] = omega (arith, sized.unknown_none)
  write_unknowns-length (u ∷ us) = omega (
    arith,
    sized.unknown_sized u us,
    write_unknowns-length us,
    length-append (wire.write_unknown u) (write_unknowns wire us),
  )

  pub int32_field-length :
      (n x : ℕ)
      → n < 16
      → length (int32_field wire n x) ≡ (if x == 0 then 0 else wire.int32_size_plus_one x)
  unfolding int32_field
  int32_field-length n x h = ground (arith, sized.int32_sized n x h)

  pub bool_field-length :
      (n : ℕ) (b : Bool) → n < 16 → length (bool_field wire n b) ≡ (if b then 1 + 1 else 0)
  unfolding bool_field
  bool_field-length n true h = sized.bool_sized n true h
  bool_field-length n false h = refl

  pub float_field-length :
      (n x : ℕ) → n < 16 → length (float_field wire n x) ≡ (if x == 0 then 0 else 1 + 4)
  unfolding float_field
  float_field-length n x h = ground (arith, sized.float_sized n x h)

  -- A part, where its size is the one that is announced.
  pub message_field-length :
      {A : Type 0} (n : ℕ) (o : Option A) (write : A → List ℕ) (size : A → ℕ)
      → n < 16
      → ((a : A) → length (write a) ≡ size a)
      → length (message_field wire n (Option.map write o)) ≡ part_size wire (Option.map size o)
  unfolding message_field part_size
  message_field-length n none write size h e = refl
  message_field-length n (some a) write size h e =
      sized.message_sized n (write a) h ∙ ap (λ k. 1 + wire.message_size k) (e a)
