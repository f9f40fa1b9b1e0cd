-- ===== src/RuleEngine/Scores.antt =====
-- src/scoring/rule_engine.cpp: the scores that the rules can give, in the floats of the source.
use ml_distributed_fraud_eng.Common.{
  ℕ, ◌≤◌, ◌≡◌, refl, Bool, true, false, not, ◌&&◌, ◌||◌, List, Option, leb, arith, ◌⊎◌, inl, inr,
  ◌↔◌, leb→le, Option-cases,
}
use ml_distributed_fraud_eng.Float.{Fpu, gt32, gt64, add32, f0_85}
use ml_distributed_fraud_eng.Messages.{Transaction, UserFeatures}
use ml_distributed_fraud_eng.RuleEngine.{score, score_parsed, f1_00, d5, d5000}
use ml_distributed_fraud_eng.RuleEngine.Flags.{
  Band, usual, raised, high, Flags, flags, score_of_flags, score_parsed-flags, within_minute,
  unseen,
}

abbrev implies : Bool → Bool → Bool
implies b c = not b || c

abbrev bool_eq : Bool → Bool → Bool
bool_eq true c = c
bool_eq false c = not c

implies_apply : (b c : Bool) → implies b c ≡ true → b ≡ true → c ≡ true
implies_apply true c h k = h
implies_apply false c h k = cc

bool_eq→eq : (b c : Bool) → bool_eq b c ≡ true → b ≡ c
bool_eq→eq true true h = refl
bool_eq→eq true false h = cc
bool_eq→eq false true h = cc
bool_eq→eq false false h = refl

abbrev pub is_high : Band → Bool
is_high high = true
is_high _ = false

abbrev rank : Band → ℕ
rank usual = 0
rank raised = 1
rank high = 2

-- Each rule that fires for the first also fires for the second, at least as hard.
abbrev below : Flags → Flags → Bool
below f g =
    leb (rank f.band) (rank g.band)
    && implies f.large g.large
    && implies f.new_country g.new_country
    && implies f.fast g.fast
    && implies f.unknown g.unknown

-- Tests over all values of a finite type.
every_bool : (Bool → Bool) → Bool
every_bool p = p true && p false

every_bool_lem : (p : Bool → Bool) → every_bool p ≡ true → (b : Bool) → p b ≡ true
unfolding every_bool
every_bool_lem p h true = ground arith
every_bool_lem p h false = ground arith

every_band : (Band → Bool) → Bool
every_band p = p usual && (p raised && p high)

every_band_lem : (p : Band → Bool) → every_band p ≡ true → (b : Band) → p b ≡ true
unfolding every_band
every_band_lem p h usual = ground arith
every_band_lem p h raised = ground arith
every_band_lem p h high = ground arith

every_flags : (Flags → Bool) → Bool
unfolding every_bool every_band
every_flags p = every_band λ a. every_bool λ b. every_bool λ c.
    every_bool λ d.
      every_bool λ e. p (record { band = a; large = b; new_country = c; fast = d; unknown = e })

every_flags_lem : (p : Flags → Bool) → every_flags p ≡ true → (f : Flags) → p f ≡ true
unfolding every_flags
every_flags_lem p h f =
    let at4 = λ (a : Band) (b c d : Bool) (x : Bool).
      p (record { band = a; large = b; new_country = c; fast = d; unknown = x }) in
    let at3 = λ (a : Band) (b c : Bool) (x : Bool). every_bool (at4 a b c x) in
    let at2 = λ (a : Band) (b : Bool) (x : Bool). every_bool (at3 a b x) in
    let at1 = λ (a : Band) (x : Bool). every_bool (at2 a x) in
    every_bool_lem (at4 f.band f.large f.new_country f.fast)
      (every_bool_lem (at3 f.band f.large f.new_country)
        (every_bool_lem (at2 f.band f.large)
          (every_bool_lem (at1 f.band) (every_band_lem (λ a. every_bool (at1 a)) h f.band) f.large)
          f.new_country)
        f.fast)
      f.unknown

-- No sum of rules is above 1.0f.
in_range_table : every_flags (λ f. leb (score_of_flags f) f1_00) ≡ true
unfolding every_flags score_of_flags add32 gt32
in_range_table = refl

abbrev alarm : Flags → Bool
alarm f = is_high f.band && f.large && f.new_country && (f.fast || f.unknown)

alarm_table : every_flags (λ f. bool_eq (gt32 (score_of_flags f) f0_85) (alarm f)) ≡ true
unfolding every_flags score_of_flags add32 gt32
alarm_table = refl

mono_table :
    every_flags
      (λ f. every_flags (λ g. implies (below f g) (leb (score_of_flags f) (score_of_flags g))))
    ≡ true
unfolding every_flags score_of_flags add32 gt32
mono_table = refl

score_of_flags_mono : (f g : Flags) → below f g ≡ true → score_of_flags f ≤ score_of_flags g
score_of_flags_mono f g h =
    leb→le _ _ (implies_apply _ _ (every_flags_lem _ (every_flags_lem _ mono_table f) g) h)

score_of_flags-alarm : (f : Flags) → gt32 (score_of_flags f) f0_85 ≡ alarm f
score_of_flags-alarm f = bool_eq→eq _ _ (every_flags_lem _ alarm_table f)

pub score_parsed-le :
    (fpu : Fpu) (tx : Transaction) (u : UserFeatures) → score_parsed fpu tx u ≤ f1_00
score_parsed-le fpu tx u =
    rw score_parsed-flags (leb→le _ _ (every_flags_lem _ in_range_table (flags fpu tx u)))

-- The score of any bytes, parsed or not, and any features is a float between 0.0f and 1.0f.
pub score-le :
    (fpu : Fpu) (parse : List ℕ → Option Transaction) (bytes : List ℕ) (u : UserFeatures)
    → score fpu parse bytes u ≤ f1_00
unfolding score
score-le fpu parse bytes u = elim (Option-cases (parse bytes)) [
  | inl e ↦ rw (e, score) (omega arith)
  | inr (tx, e) ↦ rw (e, score) (score_parsed-le fpu tx u)
]

-- If every rule that fires for one transaction and its features also fires for another one, at least as
-- hard, then the other one's score is at least as high.
pub score_parsed_mono :
    (fpu : Fpu) (tx tx' : Transaction) (u u' : UserFeatures)
    → below (flags fpu tx u) (flags fpu tx' u') ≡ true
    → score_parsed fpu tx u ≤ score_parsed fpu tx' u'
score_parsed_mono fpu tx tx' u u' h =
    rw (score_parsed-flags fpu tx u, score_parsed-flags fpu tx' u')
      (score_of_flags_mono (flags fpu tx u) (flags fpu tx' u') h)

-- The rules alone put a parsed transaction above the default threshold 0.85f exactly if the amount is
-- more than five times the average and more than 5000, the country is new, and it comes within a minute
-- of the last one or the user is unknown.
pub score_parsed-alarm :
    (fpu : Fpu) (tx : Transaction) (u : UserFeatures)
    → (gt32 (score_parsed fpu tx u) f0_85 ≡ true) ↔ (
        (gt32 u.avg_amount_30d 0 ≡ true)
        × (gt64 (fpu.divide tx.amount (fpu.widen u.avg_amount_30d)) d5 ≡ true)
        × (gt64 tx.amount d5000 ≡ true)
        × (unseen tx.country u.countries_30d ≡ true)
        × ((within_minute u.last_tx_ts tx.timestamp_ms ≡ true) ⊎ (u.is_cache_miss ≡ true)))
unfolding flags
score_parsed-alarm fpu tx u =
    rw (score_parsed-flags fpu tx u, score_of_flags-alarm (flags fpu tx u)) (ground arith)
