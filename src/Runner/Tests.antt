-- ===== src/Runner/Tests.antt =====
-- Speed tests with small outputs.
use homelink_monitor.Base.{
  ℕ, ◌≡◌, ◌+◌, ◌*◌, ◌/◌, refl, false, some, List, [], ◌∷◌, Text, err, ltb, is_empty, Floats,
  space_width,
}
use homelink_monitor.Runner.{Process, Decoder, fields, fields_from, run}
use homelink_monitor.Runner.Outcome.{IsOutcome, run-IsOutcome}

abbrev whole_numbers : Floats ℕ
whole_numbers = record { of_nat = λ n. n; less = ltb; plus = ◌+◌; times = ◌*◌; over = ◌/◌ }

abbrev no_json : Decoder ℕ
no_json = record { ookla = λ raw. err (b'j' ∷ []); simple = λ raw. err (b'j' ∷ []) }

abbrev refuses : List Text → Process
refuses parts = record { failure = some (b'e' ∷ []); stdout = []; stderr = [] }

-- "a  b " has two words.
two_words : fields (b'a' ∷ 32 ∷ 32 ∷ b'b' ∷ 32 ∷ []) ≡ (b'a' ∷ []) ∷ (b'b' ∷ []) ∷ []
unfolding fields fields_from space_width
two_words = refl

refuses_says :
    (parts : List Text) (e : Text) → (refuses parts).failure ≡ some e → is_empty e ≡ false
refuses_says parts [] h = cc
refuses_says parts (a ∷ e) h = refl

run-IsOutcome_example : IsOutcome (run whole_numbers no_json refuses 5 6 (b'a' ∷ []))
run-IsOutcome_example = run-IsOutcome whole_numbers no_json refuses 5 6 (b'a' ∷ []) refuses_says
