-- ===== src/Util.antt =====
-- src/kclpp/util/util.cpp: `safeStrToUll`, over what it uses of the C library, `strtoull` in base
-- 10 and `errno`. The text of a number is the list of its bytes; `errno` is kept as the Boolean
-- `errno == ERANGE`, which the function reads and never resets.
pub mod Decimal
use kclpp.Prelude.{
  ℕ, zero, suc, ◌+◌, ◌-◌, ◌*◌, ◌/◌, ◌%◌, ◌^◌, Bool, true, false, ◌&&◌, ◌||◌, List, [], ◌∷◌, ◌++◌,
  ltb, leb, ◌==◌, if◌then◌else◌,
}
use kclpp.Outcome.{Outcome, success, failure}

pub data DeserializationError : Type 0 where
  strtoull_on_empty : DeserializationError
  couldnt_read_ull strtoull_out_of_range : List ℕ → DeserializationError
  missing_lease_key non_string_lease_key missing_lease_owner : DeserializationError
  bad_lease_counter bad_owner_switches bad_last_increment : List ℕ → DeserializationError

abbrev pub ull_mod : ℕ
ull_mod = 2 ^ 64

abbrev pub ullong_max : ℕ
ullong_max = 2 ^ 64 - 1

abbrev pub is_space : ℕ → Bool
is_space c = c == 32 || (leb 9 c && leb c 13)

abbrev pub is_digit : ℕ → Bool
is_digit c = leb b'0' c && leb c b'9'

pub skip_space : List ℕ → List ℕ
skip_space [] = []
skip_space (c ∷ cs) = let rest = skip_space cs in if is_space c then rest else c ∷ cs

pub strip_sign : List ℕ → Bool × List ℕ
strip_sign [] = (false, [])
strip_sign (c ∷ cs) =
    if c == b'-' then (true, cs) else if c == b'+' then (false, cs) else (false, c ∷ cs)

pub starts_digit : List ℕ → Bool
starts_digit [] = false
starts_digit (c ∷ cs) = is_digit c

pub read_digits : ℕ → List ℕ → ℕ
read_digits acc [] = acc
read_digits acc (c ∷ cs) =
    let rest = read_digits (acc * 10 + (c - b'0')) cs in if is_digit c then rest else acc

-- what `strtoull` returns, whether it moved `endPtr`, and whether it set `errno` to `ERANGE`
pub record Strtoull : Type 0 where
  pub value : ℕ
  pub converted : Bool
  pub range : Bool

convert : Bool → ℕ → Strtoull
convert neg n =
    if leb ull_mod n
    then record { value = ullong_max; converted = true; range = true }
    else record {
      value = if neg then (ull_mod - n) % ull_mod else n;
      converted = true;
      range = false;
    }

strtoull_signed : Bool → List ℕ → Strtoull
unfolding convert starts_digit read_digits
strtoull_signed neg ds =
    if starts_digit ds
    then convert neg (read_digits 0 ds)
    else record { value = 0; converted = false; range = false }

pub strtoull : List ℕ → Strtoull
unfolding strtoull_signed skip_space strip_sign
strtoull s = let (neg, ds) = strip_sign (skip_space s) in strtoull_signed neg ds

check_strtoull : Bool → List ℕ → Strtoull → Outcome ℕ DeserializationError × Bool
check_strtoull errno s r =
    let errno' = errno || r.range in
    if r.converted
    then if (r.value == ullong_max) && errno'
      then (failure (strtoull_out_of_range s), errno')
      else (success r.value, errno')
    else (failure (couldnt_read_ull s), errno')

unfoldable pub safe_str_to_ull : Bool → List ℕ → Outcome ℕ DeserializationError × Bool
unfolding strtoull check_strtoull
safe_str_to_ull errno [] = (failure strtoull_on_empty, errno)
safe_str_to_ull errno (c ∷ cs) = check_strtoull errno (c ∷ cs) (strtoull (c ∷ cs))

-- `ostringstream << n`, with enough fuel: a number has no more digits than its value and one
pub digits : ℕ → ℕ → List ℕ
digits zero n = (b'0' + n) ∷ []
digits (suc fuel) n =
    let rest = digits fuel (n / 10) in
    if ltb n 10 then (b'0' + n) ∷ [] else rest ++ (b'0' + n % 10) ∷ []

unfoldable pub print_ull : ℕ → List ℕ
unfolding digits
print_ull n = digits n n
