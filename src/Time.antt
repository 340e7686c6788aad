-- ===== src/Time.antt =====
-- src/time.rs: date-times, what makes one valid, and the packed form of a directory entry.
pub mod Packing
use Prim.Native.Nat.{bit_or}
use resident_fat.Prelude.{
  ℕ, ◌+◌, ◌-◌, ◌*◌, ◌/◌, ◌%◌, ◌^◌, min, Bool, true, false, not, ◌&&◌, ◌||◌, Option, none, some, ltb,
  leb, ◌==◌, if◌then◌else◌,
}
use resident_fat.Words.{u8, u16, low_bits, shr, shl}

abbrev pub first_year : ℕ
first_year = 1980

abbrev pub last_year : ℕ
last_year = 2107

pub record DateTime : Type 0 where
  pub year : ℕ
  pub month : ℕ
  pub day : ℕ
  pub hour : ℕ
  pub minute : ℕ
  pub second : ℕ
  pub millisecond : ℕ

pub record Packed : Type 0 where
  pub date : ℕ
  pub time : ℕ
  pub hundredths : ℕ

-- `DateTime::EPOCH`
abbrev pub epoch : DateTime
epoch = record {
  year = first_year;
  month = 1;
  day = 1;
  hour = 0;
  minute = 0;
  second = 0;
  millisecond = 0;
}

-- `DateTime::LATEST`
abbrev pub latest : DateTime
latest = record {
  year = last_year;
  month = 12;
  day = 31;
  hour = 23;
  minute = 59;
  second = 59;
  millisecond = 990;
}

unfoldable pub is_leap_year : ℕ → Bool
is_leap_year year = (year % 4 == 0) && (not (year % 100 == 0) || (year % 400 == 0))

unfoldable pub days_in_month : ℕ → ℕ → ℕ
unfolding is_leap_year
days_in_month year month =
    if (month == 1)
      || (month == 3)
      || (month == 5)
      || (month == 7)
      || (month == 8)
      || (month == 10)
      || (month == 12)
    then 31
    else if (month == 4) || (month == 6) || (month == 9) || (month == 11)
    then 30
    else if (month == 2) && is_leap_year year
    then 29
    else if month == 2
    then 28
    else 0

-- the test by which `DateTime::new` refuses
unfoldable pub is_refused : DateTime → Bool
is_refused t =
    not (leb 1 t.month && leb t.month 12)
    || ltb t.day 1
    || ltb (days_in_month t.year t.month) t.day
    || ltb 23 t.hour
    || ltb 59 t.minute
    || ltb 59 t.second
    || ltb 999 t.millisecond

-- `DateTime::new`
unfoldable pub new : ℕ → ℕ → ℕ → ℕ → ℕ → ℕ → ℕ → Option DateTime
unfolding is_refused
new year month day hour minute second millisecond =
    let t : DateTime = record {
      year = year;
      month = month;
      day = day;
      hour = hour;
      minute = minute;
      second = second;
      millisecond = millisecond;
    } in
    if is_refused t then none else some t

-- The derived order: the fields one after the other.
abbrev pub lexicographic : ℕ → ℕ → Bool → Bool
lexicographic a b later = ltb a b || ((a == b) && later)

unfoldable pub before : DateTime → DateTime → Bool
before s t = lexicographic s.year t.year (
    lexicographic s.month t.month (
      lexicographic s.day t.day (
        lexicographic s.hour t.hour (
          lexicographic s.minute t.minute
            (lexicographic s.second t.second (ltb s.millisecond t.millisecond))))))

unfoldable pub clamp_to_fat : DateTime → DateTime
unfolding before
clamp_to_fat t = if before t epoch then epoch else if before latest t then latest else t

-- `DateTime::pack` past the clamp
unfoldable pub pack_fields : DateTime → Packed
pack_fields t = record {
  date =
      bit_or (bit_or (u16 (shl (u16 (t.year + 2 ^ 16 - first_year)) 9)) (u16 (shl t.month 5)))
        t.day;
  time = bit_or (bit_or (u16 (shl t.hour 11)) (u16 (shl t.minute 5))) (t.second / 2);
  hundredths = u8 (u8 (t.second % 2 * 100) + u8 (t.millisecond / 10));
}

unfoldable pub pack : DateTime → Packed
unfolding clamp_to_fat pack_fields
pack t = pack_fields (clamp_to_fat t)

unfoldable pub unpack : Packed → DateTime
unpack p = if p.date == 0 then epoch else record {
  year = first_year + shr p.date 9;
  month = low_bits (shr p.date 5) 4;
  day = low_bits p.date 5;
  hour = low_bits (shr p.time 11) 5;
  minute = low_bits (shr p.time 5) 6;
  second = u8 (low_bits p.time 5 * 2 + min p.hundredths 199 / 100);
  millisecond = min p.hundredths 199 % 100 * 10;
}
