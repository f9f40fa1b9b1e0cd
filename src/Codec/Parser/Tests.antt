-- ===== src/Codec/Parser/Tests.antt =====
-- generated/fraud.pb.cc: a message that is parsed, and the theorems for it.
use ml_distributed_fraud_eng.Common.{ℕ, ◌≡◌, ◌↔◌, refl, List, [], ◌∷◌, none, some, arith}
use ml_distributed_fraud_eng.Messages.{Transaction}
use ml_distributed_fraud_eng.Text.{codes}
use ml_distributed_fraud_eng.Codec.{serialize, merge}
use ml_distributed_fraud_eng.Codec.Parser.{empty, field, parse, slot_of}
use ml_distributed_fraud_eng.Codec.Stream.{loop, turn}
use ml_distributed_fraud_eng.Codec.Parser.Canonical.{Canonical}
use ml_distributed_fraud_eng.Codec.Parser.Reparse.{reparse, parse-Canonical, parse-serialize_iff}
use ml_distributed_fraud_eng.Codec.Parser.Concat.{serialize_all, merge_all, parse-serialize_all}
use ml_distributed_fraud_eng.Codec.Stream.SmallReader.{small_wire, small_reader}
use ml_distributed_fraud_eng.Codec.Stream.SmallReader.Lawful.{
  small_reader-Advances, small_reader-WellRead, small_reader-Inverse,
}

-- A transaction's id, its amount, its method and a field of a later version.
abbrev some_bytes : List ℕ
some_bytes = 10 ∷ 2 ∷ 116 ∷ 49 ∷ 33 ∷ 7 ∷ 0 ∷ 0 ∷ 0 ∷ 0 ∷ 0 ∷ 0 ∷ 0 ∷ 88 ∷ 3 ∷ 794 ∷ 1 ∷ 9 ∷ []

abbrev parsed : Transaction
parsed = record empty {
  tx_id = codes "t1";
  amount = 7;
  method = 3;
  unknown_fields = (794, 1 ∷ 9 ∷ []) ∷ [];
}

some_bytes-parse : parse small_reader some_bytes ≡ some parsed
unfolding parse loop turn field slot_of
some_bytes-parse = refl

-- A text that is not in UTF-8, and the end of a group, stop the parser.
bad_text : parse small_reader (10 ∷ 1 ∷ 200 ∷ []) ≡ none
unfolding parse loop turn field slot_of
bad_text = refl

group_end : parse small_reader (12 ∷ []) ≡ none
unfolding parse loop turn field slot_of
group_end = refl

-- The second message sets the method again, adds a user and keeps the rest.
abbrev update : Transaction
update = record empty { user_id = codes "u"; method = 4 }

parsed-Canonical : Canonical small_reader parsed
parsed-Canonical =
    parse-Canonical small_reader small_reader-WellRead some_bytes parsed some_bytes-parse

update-Canonical : Canonical small_reader update
update-Canonical =
    (refl, refl, refl, omega arith, refl, refl, omega arith, refl, refl, refl, omega arith, tt)

both_merged :
    merge_all empty (parsed ∷ update ∷ []) ≡ record parsed { user_id = codes "u"; method = 4 }
unfolding merge
both_merged = refl

parse-serialize_all_example :
    parse small_reader (serialize_all small_wire (parsed ∷ update ∷ []))
    ≡ some (merge_all empty (parsed ∷ update ∷ []))
parse-serialize_all_example =
    parse-serialize_all small_wire small_reader small_reader-Advances small_reader-Inverse
      (parsed ∷ update ∷ []) (parsed-Canonical, (update-Canonical, tt))

parse-serialize_iff_example :
    (parse small_reader (serialize small_wire parsed) ≡ some parsed) ↔ Canonical small_reader parsed
parse-serialize_iff_example =
    parse-serialize_iff small_wire small_reader small_reader-WellRead small_reader-Advances
      small_reader-Inverse parsed

reparse_example : parse small_reader (serialize small_wire parsed) ≡ some parsed
reparse_example =
    reparse small_wire small_reader small_reader-WellRead small_reader-Advances small_reader-Inverse
      some_bytes parsed some_bytes-parse
