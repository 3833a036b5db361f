-- ===== src/Word/Tests.antt =====
-- The checked arithmetic at concrete operands.
use allocazam.Prelude.{ℕ, ◌≡◌, some, none, leb, if◌then◌else◌, arith, refl}
use allocazam.Word.{size_max, checked_round_to_multiple_of, round_to_multiple_of}
use allocazam.Word.Pow2.{align_up_pow2, and_not}
use allocazam.Word.Checked.{checked_round-least, IsLeastMultiple}

checked_round-least_example :
    (r : ℕ) × IsLeastMultiple 4096 10000 r
    × (checked_round_to_multiple_of 10000 4096 ≡ (if leb r size_max then some r else none))
checked_round-least_example =
    checked_round-least 10000 4096 (omega arith) (omega arith) (omega arith)

round_up : round_to_multiple_of 10000 4096 ≡ 12288
unfolding round_to_multiple_of
round_up = refl

align_up : align_up_pow2 33 16 ≡ 48
unfolding align_up_pow2 and_not
align_up = refl
