-- ===== src/Time/Calendar.antt =====
-- The proleptic Gregorian calendar of Python's `date`, and its ISO text. A date is the number of
-- days from 0001-01-01.
use power_market_data_platfo.Base.{
  ℕ, zero, suc, ◌+◌, ◌-◌, ◌*◌, ◌/◌, ◌%◌, ◌^◌, Bool, ◌&&◌, ◌||◌, not, [], ◌∷◌, ◌++◌, List, ltb, ◌==◌,
  if◌then◌else◌, Text,
}

abbrev pub microseconds_per_day : ℕ
microseconds_per_day = 86400000000

-- The `width` last decimal digits, with leading zeros.
abbrev pub pad : ℕ → ℕ → Text
pad zero n = []
pad (suc w) n = (n / 10 ^ w % 10 + 48) ∷ pad w n

abbrev is_leap : ℕ → Bool
is_leap y = (y % 4 == 0) && (not (y % 100 == 0) || (y % 400 == 0))

-- The lengths of the months.
abbrev months : Bool → List ℕ
months leap = 31 ∷ (if leap then 29 else 28) ∷ 31 ∷ 30 ∷ 31 ∷ 30 ∷ 31 ∷ 31 ∷ 30 ∷ 31 ∷ 30 ∷ 31 ∷ []

-- The month and the day of the month, from a day of the year counted from 0.
split_month : List ℕ → ℕ → ℕ → ℕ × ℕ
split_month [] m n = (m, n + 1)
split_month (len ∷ ls) m n =
    let rest = split_month ls (m + 1) (n - len) in if ltb n len then (m, n + 1) else rest

-- The year and the day of the year, counted from 0: cycles of 400, 100, 4 and 1 years.
split_year : ℕ → ℕ × ℕ
split_year d =
    let in400 = d % 146097 in
    let n100 = in400 / 36524 in
    let in100 = in400 % 36524 in
    let n4 = in100 / 1461 in
    let in4 = in100 % 1461 in
    let n1 = in4 / 365 in
    let year = d / 146097 * 400 + n100 * 100 + n4 * 4 + n1 + 1 in
    if (n1 == 4) || (n100 == 4) then (year - 1, 365) else (year, in4 % 365)

-- `str(date)`.
unfoldable pub date_text : ℕ → Text
unfolding split_month split_year
date_text d =
    let (year, n) = split_year d in
    let (month, day) = split_month (months (is_leap year)) 1 n in
    pad 4 year ++ (b'-' ∷ pad 2 month) ++ (b'-' ∷ pad 2 day)
