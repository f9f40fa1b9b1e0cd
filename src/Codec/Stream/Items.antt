-- ===== src/Codec/Stream/Items.antt =====
-- generated/fraud.pb.cc: single fields that were written, and how the loops of `_InternalParse` read them.
use mathlib.Core.List.{append-nil, append_assoc}
use ml_distributed_fraud_eng.Common.{
  ℕ, zero, suc, ◌+◌, ◌*◌, ◌%◌, ◌^◌, ◌<◌, ◌==◌, ◌≡◌, refl, ap, ◌∙◌, Bool, true, false, not, List, [],
  ◌∷◌, ◌++◌, Option, some, arith, length, All, if◌then◌else◌,
}
use ml_distributed_fraud_eng.Codec.{
  Wire, or_keep, or_keep_text, string_field, double_field, int64_field, int32_field, bool_field,
  enum_field, float_field, message_field, write_unknowns,
}
use ml_distributed_fraud_eng.Codec.Stream.{
  Reader, text_step, number_step, message_step, unknown_step, run,
}
use ml_distributed_fraud_eng.Codec.Stream.Laws.{Inverse, Valid, Kept}
use ml_distributed_fraud_eng.Codec.Stream.Fuel.{Advances, Within}
use ml_distributed_fraud_eng.Codec.Stream.Step.{run-step}

or_keep-suc : (old x : ℕ) → or_keep old (suc x) ≡ suc x
or_keep-suc old x = ground arith

module _ (wire : Wire) where
  double_field-suc : (n x : ℕ) → double_field wire n (suc x) ≡ wire.write_double n (suc x)
  unfolding double_field
  double_field-suc n x = ground arith

  int64_field-suc : (n x : ℕ) → int64_field wire n (suc x) ≡ wire.write_int64 n (suc x)
  unfolding int64_field
  int64_field-suc n x = ground arith

  int32_field-suc : (n x : ℕ) → int32_field wire n (suc x) ≡ wire.write_int32 n (suc x)
  unfolding int32_field
  int32_field-suc n x = ground arith

  float_field-suc : (n x : ℕ) → float_field wire n (suc x) ≡ wire.write_float n (suc x)
  unfolding float_field
  float_field-suc n x = ground arith

  enum_field-suc : (n x : ℕ) → enum_field wire n (suc x) ≡ wire.write_enum n (suc x)
  unfolding enum_field
  enum_field-suc n x = ground arith

module _ {M : Type 0} (wire : Wire) (reader : Reader) (advances : Advances reader)
    (inverse : Inverse wire reader) (field : ℕ → List ℕ → M → Option (M × List ℕ))
    (moves : (tag : ℕ) (p : List ℕ) (m : M) → Within (length p) (field tag p m)) where
  -- One field in front of a rest, parsed into a message with any value of the field: it is merged.
  pub run-text :
      (n : ℕ) (put : List ℕ → M) (old s rest : List ℕ)
      → n < 16
      → Valid reader s
      → ((p : List ℕ) → field (8 * n + 2) p (put old) ≡ text_step reader put (reader.read_string p))
      → run reader field (string_field wire n s ++ rest) (put old)
        ≡ run reader field rest (put (or_keep_text old s))
  unfolding string_field text_step
  run-text n put old [] rest h v step = refl
  run-text n put old (c ∷ cs) rest h v step =
      let (p, e, back) = inverse.string_back n (c ∷ cs) rest h in
      run-step reader advances field moves _ p (8 * n + 2) (put old) (put (c ∷ cs)) rest e
        (step p ∙ rw (back, v) refl)

  pub run-double :
      (n : ℕ) (put : ℕ → M) (old x : ℕ) (rest : List ℕ)
      → n < 16
      → x < 2 ^ 64
      → ((p : List ℕ)
          → field (8 * n + 1) p (put old) ≡ number_step reader put (reader.read_double p))
      → run reader field (double_field wire n x ++ rest) (put old)
        ≡ run reader field rest (put (or_keep old x))
  unfolding double_field number_step
  run-double n put old zero rest h k step = refl
  run-double n put old (suc x) rest h k step =
      let (p, e, back) = inverse.double_back n (suc x) rest h k in
      rw (double_field-suc wire n x, or_keep-suc old x)
        (run-step reader advances field moves _ p (8 * n + 1) (put old) (put (suc x)) rest e
          (step p ∙ rw back refl))

  pub run-int64 :
      (n : ℕ) (put : ℕ → M) (old x : ℕ) (rest : List ℕ)
      → n < 16
      → x < 2 ^ 64
      → ((p : List ℕ) → field (8 * n) p (put old) ≡ number_step reader put (reader.read_varint64 p))
      → run reader field (int64_field wire n x ++ rest) (put old)
        ≡ run reader field rest (put (or_keep old x))
  unfolding int64_field number_step
  run-int64 n put old zero rest h k step = refl
  run-int64 n put old (suc x) rest h k step =
      let (p, e, back) = inverse.int64_back n (suc x) rest h k in
      rw (int64_field-suc wire n x, or_keep-suc old x)
        (run-step reader advances field moves _ p (8 * n) (put old) (put (suc x)) rest e
          (step p ∙ rw back refl))

  pub run-int32 :
      (n : ℕ) (put : ℕ → M) (old x : ℕ) (rest : List ℕ)
      → n < 16
      → x < 2 ^ 32
      → ((p : List ℕ) → field (8 * n) p (put old) ≡ number_step reader put (reader.read_varint32 p))
      → run reader field (int32_field wire n x ++ rest) (put old)
        ≡ run reader field rest (put (or_keep old x))
  unfolding int32_field number_step
  run-int32 n put old zero rest h k step = refl
  run-int32 n put old (suc x) rest h k step =
      let (p, e, back) = inverse.int32_back n (suc x) rest h k in
      rw (int32_field-suc wire n x, or_keep-suc old x)
        (run-step reader advances field moves _ p (8 * n) (put old) (put (suc x)) rest e
          (step p ∙ rw back refl))

  pub run-enum :
      (n : ℕ) (put : ℕ → M) (old x : ℕ) (rest : List ℕ)
      → n < 16
      → x < 2 ^ 32
      → ((p : List ℕ)
          → field (8 * n) p (put old)
            ≡ number_step reader (λ v. put (v % 2 ^ 32)) (reader.read_varint64 p))
      → run reader field (enum_field wire n x ++ rest) (put old)
        ≡ run reader field rest (put (or_keep old x))
  unfolding enum_field number_step
  run-enum n put old zero rest h k step = refl
  run-enum n put old (suc x) rest h k step =
      let (p, v, e, back, same) = inverse.enum_back n (suc x) rest h k in
      rw (enum_field-suc wire n x, or_keep-suc old x)
        (run-step reader advances field moves _ p (8 * n) (put old) (put (suc x)) rest e
          (step p ∙ rw (back, same) refl))

  pub run-bool :
      (n : ℕ) (put : Bool → M) (old b : Bool) (rest : List ℕ)
      → n < 16
      → ((p : List ℕ)
          → field (8 * n) p (put old)
            ≡ number_step reader (λ v. put (not (v == 0))) (reader.read_varint64 p))
      → run reader field (bool_field wire n b ++ rest) (put old)
        ≡ run reader field rest (put (if b then true else old))
  unfolding bool_field number_step
  run-bool n put old false rest h step = refl
  run-bool n put old true rest h step =
      let (p, v, e, back, same) = inverse.bool_back n rest h in
      run-step reader advances field moves _ p (8 * n) (put old) (put true) rest e
        (step p ∙ rw (back, same) refl)

  pub run-float :
      (n : ℕ) (put : ℕ → M) (old x : ℕ) (rest : List ℕ)
      → n < 16
      → x < 2 ^ 32
      → ((p : List ℕ)
          → field (8 * n + 5) p (put old) ≡ number_step reader put (reader.read_float p))
      → run reader field (float_field wire n x ++ rest) (put old)
        ≡ run reader field rest (put (or_keep old x))
  unfolding float_field number_step
  run-float n put old zero rest h k step = refl
  run-float n put old (suc x) rest h k step =
      let (p, e, back) = inverse.float_back n (suc x) rest h k in
      rw (float_field-suc wire n x, or_keep-suc old x)
        (run-step reader advances field moves _ p (8 * n + 5) (put old) (put (suc x)) rest e
          (step p ∙ rw back refl))

  -- A part that is a message, where its own parser reads its bytes.
  pub run-message :
      {N : Type 0} (n : ℕ) (m : M) (put : N → M) (parse : List ℕ → Option N) (s : List ℕ) (part : N)
      (rest : List ℕ)
      → n < 16
      → parse s ≡ some part
      → ((p : List ℕ)
          → field (8 * n + 2) p m ≡ message_step reader parse put (reader.read_message p))
      → run reader field (message_field wire n (some s) ++ rest) m
        ≡ run reader field rest (put part)
  unfolding message_field message_step
  run-message n m put parse s part rest h e step =
      let (p, tagged, back) = inverse.message_back n s rest h in
      run-step reader advances field moves _ p (8 * n + 2) m (put part) rest tagged
        (step p ∙ rw (back, e) refl)

  pub run-write_unknowns :
      (IsUnusual : ℕ → Type 0) (put : List (ℕ × List ℕ) → M) (old us : List (ℕ × List ℕ))
      (rest : List ℕ)
      → ((tag : ℕ) (p : List ℕ) (some_ : List (ℕ × List ℕ))
          → IsUnusual tag
          → field tag p (put some_)
            ≡ unknown_step reader (λ u. put (some_ ++ u ∷ [])) (reader.unknown_field_parse tag p))
      → All (Kept reader IsUnusual) us
      → run reader field (write_unknowns wire us ++ rest) (put old)
        ≡ run reader field rest (put (old ++ us))
  unfolding write_unknowns unknown_step
  run-write_unknowns IsUnusual put old [] rest step h = rw append-nil refl
  run-write_unknowns IsUnusual put old (u ∷ us) rest step ((unusual, p, q, e), hs) =
      let (p', tagged, back) = inverse.unknown_back u p q (write_unknowns wire us ++ rest) e in
      let old' = old ++ u ∷ [] in
      ap (λ bytes. run reader field bytes (put old))
        (append_assoc (wire.write_unknown u) (write_unknowns wire us) rest)
      ∙ run-step reader advances field moves _ p' u.0 (put old) (put old')
          (write_unknowns wire us ++ rest) tagged (step u.0 p' old unusual ∙ rw back refl)
      ∙ run-write_unknowns IsUnusual put old' us rest step hs
      ∙ rw append_assoc refl
