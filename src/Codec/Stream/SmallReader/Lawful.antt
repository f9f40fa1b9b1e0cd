-- ===== src/Codec/Stream/SmallReader/Lawful.antt =====
-- generated/fraud.pb.cc: the small wire format of the tests keeps the laws of the items.
use mathlib.Core.Option.{some-injective}
use ml_distributed_fraud_eng.Common.{
  ℕ, zero, suc, ◌^◌, ◌%◌, ◌≤◌, ◌<◌, ◌≡◌, refl, sym, ap, Bool, true, false, List, [], ◌∷◌, ◌++◌,
  Option, none, some, arith, length, replicate, Option-cases, inl, inr, if◌then◌else◌, ltb, ltb→lt,
  subst,
}
use ml_distributed_fraud_eng.Codec.Stream.Fuel.{Advances}
use ml_distributed_fraud_eng.Codec.Stream.Laws.{Inverse, WellRead}
use ml_distributed_fraud_eng.Codec.Stream.SmallReader.{
  small_wire, split, read_text, read_number, read_eight, read_unknown, read_first, read_number32,
  read_four, small_reader,
}

split-append : (s rest : List ℕ) → split (length s) (s ++ rest) ≡ some (s, rest)
split-append [] rest = refl
split-append (b ∷ s) rest = rw (split-append s rest) refl

split-n : (n : ℕ) (s rest : List ℕ) → length s ≡ n → split n (s ++ rest) ≡ some (s, rest)
split-n n s rest e = subst (λ m. split m (s ++ rest) ≡ some (s, rest)) e (split-append s rest)

-- What `split` gives is a part of what it got.
split_lem :
    (n : ℕ) (bytes s rest : List ℕ)
    → split n bytes ≡ some (s, rest)
    → (length s ≡ n) × (length rest ≤ length bytes)
split_lem zero bytes s rest e = grind arith
split_lem (suc n) [] s rest e = cc
split_lem (suc n) (b ∷ bs) s rest e = elim (Option-cases (split n bs)) [
  | inl none_ ↦ cc
  | inr ((s', rest'), some_) ↦
      let (p, q) = split_lem n bs s' rest' some_ in
      let same = some-injective _ _ (rw some_ at e) in
      let left = ap (λ r. length r.0) same in
      let right = ap (λ r. length r.1) same in (omega arith, omega arith)
]

number_of :
    (b x : ℕ) (bs rest : List ℕ) (test : Bool)
    → ltb b (2 ^ 64) ≡ test
    → if◌then◌else◌ {A = Option (ℕ × List ℕ)} test (some (b, bs)) none ≡ some (x, rest)
    → (x < 2 ^ 64) × (length rest ≤ length bs)
number_of b x bs rest true e h =
    let same = some-injective _ _ h in
    let right = ap (λ r. length r.1) same in
    (subst (λ r. r.0 < 2 ^ 64) same (ltb→lt b (2 ^ 64) e), omega arith)
number_of b x bs rest false e h = cc

read_number-length :
    (bytes : List ℕ) (x : ℕ) (rest : List ℕ)
    → read_number bytes ≡ some (x, rest)
    → (x < 2 ^ 64) × (length rest ≤ length bytes)
read_number-length [] x rest e = cc
read_number-length (b ∷ bs) x rest e =
    let (p, q) = number_of b x bs rest _ refl e in (p, omega arith)

read_number-back : (x : ℕ) (rest : List ℕ) → x < 2 ^ 64 → read_number (x ∷ rest) ≡ some (x, rest)
read_number-back x rest h = ground arith

read_eight_lem :
    (bytes : List ℕ) (x : ℕ) (rest : List ℕ)
    → read_eight bytes ≡ some (x, rest)
    → (x < 2 ^ 64) × (length rest ≤ length bytes)
read_eight_lem (y ∷ a ∷ b ∷ c ∷ d ∷ e ∷ f ∷ g ∷ bytes) x rest h =
    let (p, q) = read_number-length (y ∷ bytes) x rest h in (p, omega arith)
read_eight_lem [] x rest h = cc
read_eight_lem (y ∷ []) x rest h = cc
read_eight_lem (y ∷ a ∷ []) x rest h = cc
read_eight_lem (y ∷ a ∷ b ∷ []) x rest h = cc
read_eight_lem (y ∷ a ∷ b ∷ c ∷ []) x rest h = cc
read_eight_lem (y ∷ a ∷ b ∷ c ∷ d ∷ []) x rest h = cc
read_eight_lem (y ∷ a ∷ b ∷ c ∷ d ∷ e ∷ []) x rest h = cc
read_eight_lem (y ∷ a ∷ b ∷ c ∷ d ∷ e ∷ f ∷ []) x rest h = cc

read_number32_lem :
    (bytes : List ℕ) (x : ℕ) (rest : List ℕ)
    → read_number32 bytes ≡ some (x, rest)
    → (x < 2 ^ 32) × (length rest ≤ length bytes)
read_number32_lem [] x rest e = cc
read_number32_lem (y ∷ bytes) x rest e =
    let same = some-injective _ _ e in
    let left = ap (λ r. r.0) same in
    let right = ap (λ r. length r.1) same in (omega arith, omega arith)

read_four_lem :
    (bytes : List ℕ) (x : ℕ) (rest : List ℕ)
    → read_four bytes ≡ some (x, rest)
    → (x < 2 ^ 32) × (length rest ≤ length bytes)
read_four_lem (y ∷ a ∷ b ∷ c ∷ bytes) x rest h =
    let (p, q) = read_number32_lem (y ∷ bytes) x rest h in (p, omega arith)
read_four_lem [] x rest h = cc
read_four_lem (y ∷ []) x rest h = cc
read_four_lem (y ∷ a ∷ []) x rest h = cc
read_four_lem (y ∷ a ∷ b ∷ []) x rest h = cc

read_number32-back :
    (x : ℕ) (rest : List ℕ) → x < 2 ^ 32 → read_number32 (x ∷ rest) ≡ some (x, rest)
read_number32-back x rest h = let same : x % 2 ^ 32 ≡ x = omega arith in rw same refl

-- An unknown field that is read keeps its tag, its length and its text.
read_unknown_lem :
    (tag : ℕ) (bytes : List ℕ) (u : ℕ × List ℕ) (rest : List ℕ)
    → read_unknown tag bytes ≡ some (u, rest)
    → (u.0 ≡ tag)
      × (length rest ≤ length bytes)
      × ((more : List ℕ) → read_unknown tag (u.1 ++ more) ≡ some (u, more))
read_unknown_lem tag [] u rest e = cc
read_unknown_lem tag (n ∷ bytes) u rest e = elim (Option-cases (split n bytes)) [
  | inl none_ ↦ cc
  | inr ((s, rest'), some_) ↦
      let (p, q) = split_lem n bytes s rest' some_ in
      let same = some-injective _ _ (rw some_ at e) in
      let left = ap (λ r. r.0) same in
      let right = ap (λ r. length r.1) same in
      (
        sym (ap (λ v. v.0) left),
        omega arith,
        λ more.
            subst (λ v. read_unknown tag (v.1 ++ more) ≡ some (v, more)) left
              (rw (split-n n s more p) refl),
      )
]

read_first-length :
    (bytes : List ℕ) (tag : ℕ) (rest : List ℕ)
    → read_first bytes ≡ some (tag, rest)
    → length rest < length bytes
read_first-length [] tag rest e = cc
read_first-length (b ∷ bs) tag rest e =
    let right = ap (λ r. length r.1) (some-injective _ _ e) in omega arith

read_text-length :
    (bytes s rest : List ℕ) → read_text bytes ≡ some (s, rest) → length rest ≤ length bytes
read_text-length [] s rest e = cc
read_text-length (n ∷ bs) s rest e = let (p, q) = split_lem n bs s rest e in omega arith

pub small_reader-Advances : Advances small_reader
small_reader-Advances = record {
  tag_advances = λ bytes tag rest e. read_first-length bytes tag rest e;
  string_advances = λ bytes s rest e. read_text-length bytes s rest e;
  double_advances = λ bytes x rest e. (read_eight_lem bytes x rest e).1;
  float_advances = λ bytes x rest e. (read_four_lem bytes x rest e).1;
  varint32_advances = λ bytes x rest e. (read_number32_lem bytes x rest e).1;
  message_advances = λ bytes s rest e. read_text-length bytes s rest e;
  varint_advances = λ bytes x rest e. (read_number-length bytes x rest e).1;
  unknown_advances = λ tag bytes u rest e. (read_unknown_lem tag bytes u rest e).1;
}

pub small_reader-WellRead : WellRead small_reader
small_reader-WellRead = record {
  nil_Valid = refl;
  double_lt = λ bytes x rest e. (read_eight_lem bytes x rest e).0;
  float_lt = λ bytes x rest e. (read_four_lem bytes x rest e).0;
  varint32_lt = λ bytes x rest e. (read_number32_lem bytes x rest e).0;
  varint_lt = λ bytes x rest e. (read_number-length bytes x rest e).0;
  unknown_tag = λ tag bytes u rest e. (read_unknown_lem tag bytes u rest e).0;
}

pub small_reader-Inverse : Inverse small_wire small_reader
small_reader-Inverse = record {
  string_back = λ n s rest h. (length s ∷ s ++ rest, refl, split-append s rest);
  double_back = λ n x rest h k. (x ∷ replicate 7 0 ++ rest, refl, read_number-back x rest k);
  int64_back = λ n x rest h k. (x ∷ rest, refl, read_number-back x rest k);
  float_back = λ n x rest h k. (x ∷ replicate 3 0 ++ rest, refl, read_number32-back x rest k);
  int32_back = λ n x rest h k. (x ∷ rest, refl, read_number32-back x rest k);
  bool_back = λ n rest h. (1 ∷ rest, 1, refl, refl, refl);
  message_back = λ n s rest h. (length s ∷ s ++ rest, refl, split-append s rest);
  enum_back =
      λ n x rest h k. (x ∷ rest, x, refl, read_number-back x rest (omega arith), omega arith);
  unknown_back = λ u p q rest e. (u.1 ++ rest, refl, (read_unknown_lem u.0 p u q e).2 rest);
}
