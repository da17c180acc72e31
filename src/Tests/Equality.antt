-- ===== src/Tests/Equality.antt =====
-- Two payloads of three bytes that differ in the last one, in chunks of two.
use password_bonobo.Prelude.{◌≡◌, refl, false, [], ◌∷◌, arith}
use password_bonobo.Prelude.Bytes.{Bytes}
use password_bonobo.Errors.{ok}
use password_bonobo.Payloads.{inline}
use password_bonobo.Payloads.Inline.{iter_chunks-inline}
use password_bonobo.Model.Equality.{payloads_equal}
use password_bonobo.Model.Equality.Laws.Decides.{payloads_equal-eq}

abbrev one_two_three : Bytes
one_two_three = 1 ∷ 2 ∷ 3 ∷ []

abbrev one_two_four : Bytes
one_two_four = 1 ∷ 2 ∷ 4 ∷ []

payloads_equal-eq_example : payloads_equal (inline one_two_three) (inline one_two_four) 2 ≡ ok false
payloads_equal-eq_example =
    payloads_equal-eq 2 (inline one_two_three) (inline one_two_four) one_two_three one_two_four
      (iter_chunks-inline one_two_three 2 (omega arith) (omega arith))
      (iter_chunks-inline one_two_four 2 (omega arith) (omega arith)) refl refl
