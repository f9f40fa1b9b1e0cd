-- ===== src/Codec/Stream/Keeps.antt =====
-- generated/fraud.pb.cc, the loops of `_InternalParse`: what holds of a message through all steps.
use mathlib.Core.Option.{some-injective}
use ml_distributed_fraud_eng.Common.{
  ℕ, zero, suc, ◌<◌, ◌≡◌, refl, subst, sym, Bool, true, false, List, [], ◌∷◌, ◌++◌, Option, none,
  some, Option-cases, inl, inr, if◌then◌else◌, All,
}
use ml_distributed_fraud_eng.Codec.Stream.{
  Reader, ends_group, text_step, number_step, unknown_step, unusual_step, turn_of, turn, loop,
}
use ml_distributed_fraud_eng.Codec.Stream.Laws.{WellRead, Valid, Kept}

-- A step makes a message of which a predicate holds, or none.
abbrev pub Holds : {M : Type 0} → (M → Type 0) → Option (M × List ℕ) → Type 0
Holds P none = Unit
Holds P (some (m, rest)) = P m

module _ {M : Type 0} (P : M → Type 0) where
  if-Holds :
      (b : Bool) (r : Option (M × List ℕ))
      → (b ≡ true → Holds P r)
      → Holds P (if b then r else none)
  if-Holds true r h = h refl
  if-Holds false r h = tt

  else-Holds :
      (b : Bool) (r : Option (M × List ℕ))
      → (b ≡ false → Holds P r)
      → Holds P (if b then none else r)
  else-Holds true r h = tt
  else-Holds false r h = h refl

append-Kept :
    (reader : Reader) (IsUnusual : ℕ → Type 0) (us : List (ℕ × List ℕ)) (u : ℕ × List ℕ)
    → All (Kept reader IsUnusual) us
    → Kept reader IsUnusual u
    → All (Kept reader IsUnusual) (us ++ u ∷ [])
append-Kept reader IsUnusual [] u h k = (k, tt)
append-Kept reader IsUnusual (u' ∷ us) u (h, hs) k = (h, append-Kept reader IsUnusual us u hs k)

module _ {M : Type 0} (reader : Reader) (well : WellRead reader) (P : M → Type 0) where
  pub text_step-Holds :
      (put : List ℕ → M) (r : Option (List ℕ × List ℕ))
      → ((s : List ℕ) → Valid reader s → P (put s))
      → Holds P (text_step reader put r)
  unfolding text_step
  text_step-Holds put none h = tt
  text_step-Holds put (some (s, rest)) h = if-Holds P (reader.verify_utf8 s) _ (h s)

  number_step-of :
      (below : ℕ) (read : List ℕ → Option (ℕ × List ℕ)) (put : ℕ → M) (p : List ℕ)
      (r : Option (ℕ × List ℕ))
      → ((bytes : List ℕ) (x : ℕ) (rest : List ℕ) → read bytes ≡ some (x, rest) → x < below)
      → read p ≡ r
      → ((x : ℕ) → x < below → P (put x))
      → Holds P (number_step reader put r)
  unfolding number_step
  number_step-of below read put p none lt e h = tt
  number_step-of below read put p (some (x, rest)) lt e h = h x (lt p x rest e)

  pub number_step-Holds :
      (below : ℕ) (read : List ℕ → Option (ℕ × List ℕ)) (put : ℕ → M) (p : List ℕ)
      → ((bytes : List ℕ) (x : ℕ) (rest : List ℕ) → read bytes ≡ some (x, rest) → x < below)
      → ((x : ℕ) → x < below → P (put x))
      → Holds P (number_step reader put (read p))
  number_step-Holds below read put p lt h = number_step-of below read put p _ lt refl h

  module _ (IsUnusual : ℕ → Type 0) (unknown_fields : List (ℕ × List ℕ))
      (put : List (ℕ × List ℕ) → M) where
    unknown_step-of :
        (tag : ℕ) (p : List ℕ) (r : Option ((ℕ × List ℕ) × List ℕ))
        → IsUnusual tag
        → reader.unknown_field_parse tag p ≡ r
        → All (Kept reader IsUnusual) unknown_fields
        → ((us : List (ℕ × List ℕ)) → All (Kept reader IsUnusual) us → P (put us))
        → Holds P (unknown_step reader (λ u. put (unknown_fields ++ u ∷ [])) r)
    unfolding unknown_step
    unknown_step-of tag p none unusual e kept h = tt
    unknown_step-of tag p (some (u, rest)) unusual e kept h =
        let same = well.unknown_tag tag p u rest e in
        h (unknown_fields ++ u ∷ []) (
          append-Kept reader IsUnusual unknown_fields u kept (
            subst
              (λ t.
                IsUnusual t
                × (p' : List ℕ) × (q : List ℕ) × (reader.unknown_field_parse t p' ≡ some (u, q)))
              (sym same) (unusual, p, rest, e)))

    -- A field whose tag the message does not know joins the others.
    pub unusual_step-Holds :
        (tag : ℕ) (p : List ℕ)
        → (ends_group tag ≡ false → IsUnusual tag)
        → All (Kept reader IsUnusual) unknown_fields
        → ((us : List (ℕ × List ℕ)) → All (Kept reader IsUnusual) us → P (put us))
        → Holds P (unusual_step reader tag p (λ u. put (unknown_fields ++ u ∷ [])))
    unfolding unusual_step
    unusual_step-Holds tag p unusual kept h =
        else-Holds P (ends_group tag) _ (λ e. unknown_step-of tag p _ (unusual e) refl kept h)

module _ {M : Type 0} (reader : Reader) (P : M → Type 0)
    (field : ℕ → List ℕ → M → Option (M × List ℕ))
    (keeps : (tag : ℕ) (p : List ℕ) (m : M) → P m → Holds P (field tag p m)) where
  turn_of-Holds : (r : Option (ℕ × List ℕ)) (m : M) → P m → Holds P (turn_of reader field r m)
  unfolding turn_of
  turn_of-Holds none m h = tt
  turn_of-Holds (some (tag, p)) m h = keeps tag p m h

  turn-Holds :
      (bytes : List ℕ) (m m' : M) (rest : List ℕ)
      → P m
      → turn reader field bytes m ≡ some (m', rest)
      → P m'
  unfolding turn
  turn-Holds bytes m m' rest h e =
      subst (λ r. Holds P r) e (turn_of-Holds (reader.read_tag bytes) m h)

  -- What holds of a message, and of each message that a step makes of such a one, holds of the result.
  pub loop-Holds :
      (fuel : ℕ) (bytes : List ℕ) (m result : M)
      → P m
      → loop reader field fuel bytes m ≡ some result
      → P result
  unfolding loop
  loop-Holds zero bytes m result h e = cc
  loop-Holds (suc fuel) [] m result h e = subst P (some-injective _ _ e) h
  loop-Holds (suc fuel) (b ∷ bs) m result h e = elim (Option-cases (turn reader field (b ∷ bs) m)) [
    | inl none_ ↦ absurd (cc)
    | inr ((m', rest), made) ↦
        loop-Holds fuel rest m' result (turn-Holds (b ∷ bs) m m' rest h made) (rw (made, loop) at e)
  ]
