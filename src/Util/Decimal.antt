-- ===== src/Util/Decimal.antt =====
-- `safeStrToUll` reads back what `ostringstream` prints.
use kclpp.Prelude.{
  ℕ, zero, suc, ◌+◌, ◌-◌, ◌*◌, ◌/◌, ◌%◌, ◌≤◌, ◌<◌, ◌≡◌, refl, ap, inl, inr, Bool, true, false, ◌&&◌,
  List, [], ◌∷◌, ◌++◌, arith, ltb, ◌==◌, if◌then◌else◌, All, All-append, Bool-cases,
}
use kclpp.Outcome.{success, failure}
use kclpp.Util.{
  strtoull_out_of_range, ullong_max, is_space, is_digit, skip_space, strip_sign, starts_digit,
  read_digits, strtoull_signed, convert, strtoull, check_strtoull, safe_str_to_ull, digits,
  print_ull,
}

abbrev IsDigits : List ℕ → Type 0
IsDigits = All (λ c. is_digit c ≡ true)

digits-IsDigits : (fuel n : ℕ) → n ≤ fuel → IsDigits (digits fuel n)
unfolding digits
digits-IsDigits zero n h = (ground arith, tt)
digits-IsDigits (suc fuel) n h = elim (Bool-cases (ltb n 10)) [
  | inl small ↦ rw small (ground arith, tt)
  | inr large ↦ rw large (
      All-append _ (digits fuel (n / 10)) _ (digits-IsDigits fuel (n / 10) (ground arith))
        (ground arith, tt))
]

read_digits-append :
    (acc d : ℕ) (cs : List ℕ)
    → d < 10
    → IsDigits cs
    → read_digits acc (cs ++ (b'0' + d) ∷ []) ≡ read_digits acc cs * 10 + d
unfolding read_digits
read_digits-append acc d [] h ds = ground arith
read_digits-append acc d (c ∷ cs) h ds =
    rw ds.0 (read_digits-append (acc * 10 + (c - b'0')) d cs h ds.1)

read_digits-digits : (fuel n : ℕ) → n ≤ fuel → read_digits 0 (digits fuel n) ≡ n
unfolding digits read_digits
read_digits-digits zero n h = ground arith
read_digits-digits (suc fuel) n h = elim (Bool-cases (ltb n 10)) [
  | inl small ↦ rw small (ground arith)
  | inr large ↦ rw large (
      omega (
        arith,
        read_digits-append 0 (n % 10) (digits fuel (n / 10)) (omega arith)
            (digits-IsDigits fuel (n / 10) (ground arith)),
        read_digits-digits fuel (n / 10) (ground arith),
      ))
]

-- The text of a number starts with a digit.
digits_cons : (fuel n : ℕ) → (c : ℕ) × (cs : List ℕ) × (digits fuel n ≡ c ∷ cs)
unfolding digits
digits_cons zero n = (b'0' + n, [], refl)
digits_cons (suc fuel) n = elim (Bool-cases (ltb n 10)) [
  | inl small ↦ (b'0' + n, [], rw small)
  | inr large ↦
      let (c, cs, e) = digits_cons fuel (n / 10) in (c, cs ++ (b'0' + n % 10) ∷ [], rw (large, e))
]

strtoull-digit :
    (c : ℕ) (cs : List ℕ)
    → is_digit c ≡ true
    → strtoull (c ∷ cs) ≡ convert false (read_digits 0 (c ∷ cs))
unfolding strtoull strtoull_signed skip_space strip_sign starts_digit
strtoull-digit c cs d =
    let a : is_space c ≡ false = ground arith in
    let b : (c == b'-') ≡ false = ground arith in
    let e : (c == b'+') ≡ false = ground arith in
    rw (a, strip_sign) (rw (b, e) (rw (d, starts_digit)))

safe_str_to_ull-cons :
    (errno : Bool) (c n : ℕ) (cs : List ℕ)
    → n ≤ ullong_max
    → is_digit c ≡ true
    → read_digits 0 (c ∷ cs) ≡ n
    → safe_str_to_ull errno (c ∷ cs) ≡ (
        if (n == ullong_max) && errno
        then (failure (strtoull_out_of_range (c ∷ cs)), errno)
        else (success n, errno))
unfolding safe_str_to_ull check_strtoull convert
safe_str_to_ull-cons errno c n cs h d e = rw (strtoull-digit c cs d, e) (ground arith)

-- For every number of 64 bits, reading the printed text gives the number back, except that the
-- largest number is refused when `errno` was left at `ERANGE` by an earlier call.
pub safe_str_to_ull-print_ull :
    (errno : Bool) (n : ℕ)
    → n ≤ ullong_max
    → safe_str_to_ull errno (print_ull n) ≡ (
        if (n == ullong_max) && errno
        then (failure (strtoull_out_of_range (print_ull n)), errno)
        else (success n, errno))
unfolding print_ull
safe_str_to_ull-print_ull errno n h =
    let (c, cs, e) = digits_cons n n in
    let ds = digits-IsDigits n n (omega arith) in
    let v = read_digits-digits n n (omega arith) in
    rw e (safe_str_to_ull-cons errno c n cs h (rw e at ds).0 (rw e at v))

pub print_ull_cons : (n : ℕ) → (c : ℕ) × (cs : List ℕ) × (print_ull n ≡ c ∷ cs)
unfolding print_ull
print_ull_cons n = digits_cons n n

-- Two numbers with the same text are equal.
pub print_ull_injective : (m n : ℕ) → print_ull m ≡ print_ull n → m ≡ n
unfolding print_ull
print_ull_injective m n e = omega (
  arith,
  read_digits-digits m m (omega arith),
  read_digits-digits n n (omega arith),
  ap (read_digits 0) e,
)
