-- ===== src/Leases/Sequence.antt =====
-- src/kclpp/leases/ExtendedSequenceNumber.cpp: a checkpoint with an optional sub-checkpoint.
use kclpp.Prelude.{
  String, ◌≡◌, refl, ◌↔◌, Bool, true, false, not, Option, none, some, arith, str_eq, str_eq_iff,
  if◌then◌else◌,
}

pub record ExtendedSequenceNumber : Type 0 where
  pub sequence_number : String
  pub sub_sequence_number : Option String

-- `operator==` on the parts that follow the sequence number
equal_sub : Option String → Option String → Bool
equal_sub (some a) (some b) = str_eq a b
equal_sub (some a) none = false
equal_sub none (some b) = false
equal_sub none none = true

unfoldable pub equal : ExtendedSequenceNumber → ExtendedSequenceNumber → Bool
unfolding equal_sub
equal a b =
    if not (str_eq a.sequence_number b.sequence_number)
    then false
    else equal_sub a.sub_sequence_number b.sub_sequence_number

equal_sub_sound : (a b : Option String) → equal_sub a b ≡ true → a ≡ b
unfolding equal_sub
equal_sub_sound (some a) (some b) h = ground (arith, str_eq_iff a b)
equal_sub_sound (some a) none h = ground arith
equal_sub_sound none (some b) h = ground arith
equal_sub_sound none none h = refl

equal_sub_refl : (a : Option String) → equal_sub a a ≡ true
unfolding equal_sub
equal_sub_refl (some a) = ground (arith, str_eq_iff a a)
equal_sub_refl none = refl

-- `operator==` answers true exactly on equal sequence numbers, the optional parts included.
pub equal_iff : (a b : ExtendedSequenceNumber) → (equal a b ≡ true) ↔ (a ≡ b)
unfolding equal
equal_iff a b = (
  λ h. ground (
    arith,
    str_eq_iff a.sequence_number b.sequence_number,
    equal_sub_sound a.sub_sequence_number b.sub_sequence_number,
  ),
  λ e.
      ground (
        arith,
        str_eq_iff a.sequence_number b.sequence_number,
        equal_sub_refl a.sub_sequence_number,
      ),
)
