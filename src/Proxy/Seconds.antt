-- ===== src/Proxy/Seconds.antt =====
-- `strconv.FormatInt(n, 10)` and `strconv.ParseInt(s, 10, 64)`, by code points, as lock.go uses them on
-- seconds since 1970. An int64 has at most nineteen digits.
use boreas.Prelude.{
  ℕ, zero, suc, ◌+◌, ◌-◌, ◌*◌, ◌/◌, ◌≤◌, ◌<◌, ◌≡◌, ◌≢◌, refl, true, ◌&&◌, ◌||◌, Option, none, some,
  List, [], ◌∷◌, arith, all, leb, ◌==◌, if◌then◌else◌,
}
use Prim.Native.Nat.{◌%◌, ◌^◌}
use boreas.Prelude.Text.{is_digit}
use boreas.Prelude.Int.{ℤ, pos, negsuc}

abbrev pub max_int64 : ℕ
max_int64 = 2 ^ 63 - 1

-- The digits of `n` before `behind`, as many as the fuel allows.
unfoldable pub digits : ℕ → ℕ → List ℕ → List ℕ
digits zero n behind = behind
digits (suc k) n behind =
    let rest = digits k (n / 10) ((48 + n % 10) ∷ behind) in if n == 0 then behind else rest

unfoldable pub format_seconds : ℕ → List ℕ
unfolding digits
format_seconds n = if n == 0 then 48 ∷ [] else digits 19 n []

-- The number that digits spell behind `n`; `none` for another character, or past the largest int64.
unfoldable pub read_digits : List ℕ → ℕ → Option ℕ
read_digits [] n = some n
read_digits (c ∷ s) n =
    let m = n * 10 + (c - 48) in
    let rest = read_digits s m in if is_digit c && leb m max_int64 then rest else none

abbrev positive : Option ℕ → Option ℤ
positive none = none
positive (some n) = some (pos n)

abbrev negative : Option ℕ → Option ℤ
negative none = none
negative (some zero) = some (pos 0)
negative (some (suc n)) = some (negsuc n)

-- A sign and digits. The one int64 below the range of this reading, -2⁶³, is a time long past.
unfoldable pub parse_seconds : List ℕ → Option ℤ
unfolding read_digits
parse_seconds [] = none
parse_seconds (c ∷ s) =
    if c == b'+' || c == b'-'
    then elim s [
      | [] ↦ none
      | (d ∷ t) ↦
          if c == b'+' then positive (read_digits (d ∷ t) 0) else negative (read_digits (d ∷ t) 0)
    ]
    else positive (read_digits (c ∷ s) 0)

abbrev power_of_ten : ℕ → ℕ
power_of_ten zero = 1
power_of_ten (suc k) = 10 * power_of_ten k

-- Reading the digits of a number goes on behind them from the number.
read-digits :
    (k n : ℕ) (behind : List ℕ)
    → n < power_of_ten k
    → n ≤ max_int64
    → read_digits (digits k n behind) 0 ≡ read_digits behind n
unfolding digits read_digits
read-digits zero n behind h b = ground arith
read-digits (suc k) n behind h b =
    ground (arith, read-digits k (n / 10) ((48 + n % 10) ∷ behind) (omega arith) (omega arith))

-- Every character of a number is a digit.
all-digits :
    (k n : ℕ) (behind : List ℕ)
    → all is_digit behind ≡ true
    → all is_digit (digits k n behind) ≡ true
unfolding digits
all-digits zero n behind h = ground arith
all-digits (suc k) n behind h = ground (arith, all-digits k (n / 10) ((48 + n % 10) ∷ behind))

pub all-format_seconds : (n : ℕ) → all is_digit (format_seconds n) ≡ true
unfolding format_seconds
all-format_seconds n = ground (arith, all-digits 19 n [])

parse_of_digits :
    (s : List ℕ) → s ≢ [] → all is_digit s ≡ true → parse_seconds s ≡ positive (read_digits s 0)
unfolding parse_seconds
parse_of_digits [] e h = absurd (e refl)
parse_of_digits (c ∷ s) e h = ground (arith, h)

digits-ne-nil : (k n : ℕ) (behind : List ℕ) → behind ≢ [] → digits k n behind ≢ []
unfolding digits
digits-ne-nil zero n behind h = h
digits-ne-nil (suc k) n behind h =
    ground (arith, digits-ne-nil k (n / 10) ((48 + n % 10) ∷ behind), h)

format-ne-nil : (n : ℕ) → n ≤ max_int64 → format_seconds n ≢ []
unfolding format_seconds digits
format-ne-nil n b = ground (arith, digits-ne-nil 18 (n / 10) ((48 + n % 10) ∷ []))

-- A time that an int64 holds is read back from its print.
pub parse-format_seconds : (n : ℕ) → n ≤ max_int64 → parse_seconds (format_seconds n) ≡ some (pos n)
unfolding format_seconds read_digits
parse-format_seconds n b =
    let law = parse_of_digits (format_seconds n) (format-ne-nil n b) (all-format_seconds n) in
    ground (arith, law, read-digits 19 n [] (omega arith) b)
