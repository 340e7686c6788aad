-- ===== src/Time/Packing.antt =====
-- A date-time that is packed and unpacked, and the range that packing clamps to.
use Prim.Native.Nat.{bit_or}
use native.Mathlib.Nat.{mul_assoc}
use resident_fat.Prelude.{
  ℕ, ◌+◌, ◌-◌, ◌*◌, ◌/◌, ◌%◌, ◌^◌, ◌≤◌, ◌<◌, ◌≡◌, refl, sym, ap, ◌∙◌, false, some, arith, ltb,
  if◌then◌else◌,
}
use resident_fat.Words.Bits.{bit_or-add}
use resident_fat.Time.{
  DateTime, Packed, epoch, latest, first_year, last_year, days_in_month, is_refused, new, before,
  clamp_to_fat, pack_fields, pack, unpack,
}

-- The fields are those of a day and of a time of day.
pub record InRange (t : DateTime) : Type 0 where
  pub month : (1 ≤ t.month) × (t.month ≤ 12)
  pub day : (1 ≤ t.day) × (t.day ≤ 31)
  pub hour : t.hour ≤ 23
  pub minute : t.minute ≤ 59
  pub second : t.second ≤ 59
  pub millisecond : t.millisecond ≤ 999

days_in_month-le : (y m : ℕ) → days_in_month y m ≤ 31
unfolding days_in_month
days_in_month-le y m = ground arith

accepted-InRange : (t : DateTime) → is_refused t ≡ false → InRange t
unfolding is_refused
accepted-InRange t h = ground (arith, days_in_month-le t.year t.month)

-- the three fields as sums
date_of : DateTime → ℕ
date_of t = (t.year - first_year) * 512 + t.month * 32 + t.day

time_of : DateTime → ℕ
time_of t = t.hour * 2048 + t.minute * 32 + t.second / 2

hundredths_of : DateTime → ℕ
hundredths_of t = t.second % 2 * 100 + t.millisecond / 10

-- three fields, the lowest of five bits, that fit in a word of sixteen bits
three_fields :
    (k s hi mid lo : ℕ)
    → 2 ^ k ≡ s * 32
    → hi * 2 ^ k < 2 ^ 16
    → mid * 32 < 2 ^ k
    → mid * 32 < 2 ^ 16
    → lo < 32
    → bit_or (bit_or (hi * 2 ^ k % 2 ^ 16) (mid * 32 % 2 ^ 16)) lo ≡ hi * 2 ^ k + mid * 32 + lo
three_fields k s hi mid lo whole h m m' l =
    let high : hi * 2 ^ k % 2 ^ 16 ≡ hi * 2 ^ k = omega arith in
    let middle : mid * 32 % 2 ^ 16 ≡ mid * 32 = omega arith in
    let upper : bit_or (hi * 2 ^ k) (mid * 32) ≡ hi * 2 ^ k + mid * 32 =
      bit_or-add k hi (hi * 2 ^ k) (mid * 32) refl m in
    let shared : hi * 2 ^ k ≡ hi * s * 32 = ap (λ p. hi * p) whole ∙ sym (mul_assoc hi s 32) in
    rw (high, middle, upper)
      (bit_or-add 5 (hi * s + mid) (hi * 2 ^ k + mid * 32) lo (omega (arith, shared)) (omega arith))

pack_fields-sums :
    (t : DateTime)
    → InRange t
    → first_year ≤ t.year
    → t.year ≤ last_year
    → pack_fields t ≡ record { date = date_of t; time = time_of t; hundredths = hundredths_of t }
unfolding pack_fields date_of time_of hundredths_of
pack_fields-sums t r from upto =
    let year : (t.year + 2 ^ 16 - first_year) % 2 ^ 16 ≡ t.year - first_year = omega arith in
    let date =
      three_fields 9 16 (t.year - first_year) t.month t.day refl (omega arith) (omega arith)
        (omega arith) (omega arith) in
    let time =
      three_fields 11 64 t.hour t.minute (t.second / 2) refl (omega arith) (omega arith)
        (omega arith) (omega arith) in
    let hundredths : (t.second % 2 * 100 % 256 + t.millisecond / 10 % 256) % 256
        ≡ t.second % 2 * 100 + t.millisecond / 10 =
      omega arith in
    rw (year, date, time, hundredths)

-- A date-time without the milliseconds that a directory entry has no room for.
abbrev pub to_centiseconds : DateTime → DateTime
to_centiseconds t = record t { millisecond = t.millisecond / 10 * 10 }

unpack-sums :
    (t : DateTime)
    → InRange t
    → first_year ≤ t.year
    → t.year ≤ last_year
    → unpack (record { date = date_of t; time = time_of t; hundredths = hundredths_of t })
      ≡ to_centiseconds t
unfolding unpack date_of time_of hundredths_of
unpack-sums t r from upto = ground arith

clamped-InRange : (t : DateTime) → InRange t → InRange (clamp_to_fat t)
unfolding clamp_to_fat
clamped-InRange t r = ground arith

-- Nothing that the format has room for is moved.
clamp_within :
    (t : DateTime)
    → InRange t
    → first_year ≤ t.year
    → t.year ≤ last_year
    → to_centiseconds (clamp_to_fat t) ≡ to_centiseconds t
unfolding clamp_to_fat before
clamp_within t r from upto = ground arith

clamp_bounds :
    (t : DateTime) → (first_year ≤ (clamp_to_fat t).year) × ((clamp_to_fat t).year ≤ last_year)
unfolding clamp_to_fat before
clamp_bounds t = ground arith

new-some-accepted :
    (y mo d h mi s ms : ℕ) (t : DateTime) → new y mo d h mi s ms ≡ some t → is_refused t ≡ false
unfolding new
new-some-accepted y mo d h mi s ms t e = ground arith

pack-sums :
    (t : DateTime)
    → InRange t
    → pack t ≡ record {
      date = date_of (clamp_to_fat t);
      time = time_of (clamp_to_fat t);
      hundredths = hundredths_of (clamp_to_fat t);
    }
unfolding pack
pack-sums t r =
    let bounds = clamp_bounds t in
    pack_fields-sums (clamp_to_fat t) (clamped-InRange t r) bounds.0 bounds.1

pub round_trip : (t : DateTime) → InRange t → unpack (pack t) ≡ to_centiseconds (clamp_to_fat t)
round_trip t r =
    let bounds = clamp_bounds t in
    rw (pack-sums t r) (unpack-sums (clamp_to_fat t) (clamped-InRange t r) bounds.0 bounds.1)

-- A date-time without the odd second, and without the time of day.
abbrev pub to_two_seconds : DateTime → DateTime
to_two_seconds t = record t { second = t.second / 2 * 2; millisecond = 0 }

abbrev pub to_days : DateTime → DateTime
to_days t = record t { hour = 0; minute = 0; second = 0; millisecond = 0 }

unpack-parts :
    (t : DateTime)
    → InRange t
    → first_year ≤ t.year
    → t.year ≤ last_year
    → (unpack (record { date = date_of t; time = time_of t; hundredths = 0 }) ≡ to_two_seconds t)
      × (unpack (record { date = date_of t; time = 0; hundredths = 0 }) ≡ to_days t)
unfolding unpack date_of time_of
unpack-parts t r from upto = ground arith

pub round_trip-parts :
    (t : DateTime)
    → InRange t
    → (unpack (record { date = (pack t).date; time = (pack t).time; hundredths = 0 })
        ≡ to_two_seconds (clamp_to_fat t))
      × (unpack (record { date = (pack t).date; time = 0; hundredths = 0 })
          ≡ to_days (clamp_to_fat t))
round_trip-parts t r =
    let bounds = clamp_bounds t in
    rw (pack-sums t r) (unpack-parts (clamp_to_fat t) (clamped-InRange t r) bounds.0 bounds.1)

pub pack_bounds :
    (t : DateTime)
    → InRange t
    → ((pack t).date < 2 ^ 16) × ((pack t).time < 2 ^ 16) × ((pack t).hundredths < 2 ^ 8)
unfolding date_of time_of hundredths_of
pack_bounds t r =
    let bounds = clamp_bounds t in
    let kept = clamped-InRange t r in rw (pack-sums t r) (ground (arith, kept, bounds))

-- For a date-time that `new` accepts: from 1980 to 2107 packing loses no more than what is less
-- than ten milliseconds; before it stores the epoch, and after it the latest date-time.
pub unpack-pack :
    (y mo d h mi s ms : ℕ) (t : DateTime)
    → new y mo d h mi s ms ≡ some t
    → unpack (pack t) ≡ (
        if ltb t.year first_year
        then epoch
        else if ltb last_year t.year
        then latest
        else to_centiseconds t)
unfolding clamp_to_fat before
unpack-pack y mo d h mi s ms t e =
    let r = accepted-InRange t (new-some-accepted y mo d h mi s ms t e) in
    rw (round_trip t r) (ground arith)

-- The fields of an entry that hold a date and a time of day.
pub record HoldsTime (p : Packed) : Type 0 where
  pub date : p.date < 2 ^ 16
  pub month : (1 ≤ p.date / 32 % 16) × (p.date / 32 % 16 ≤ 12)
  pub day : 1 ≤ p.date % 32
  pub time : p.time / 2048 ≤ 23
  pub minute : p.time / 32 % 64 ≤ 59
  pub second : p.time % 32 ≤ 29
  pub hundredths : p.hundredths ≤ 199

unpacked-InRange : (p : Packed) → HoldsTime p → InRange (unpack p)
unfolding unpack
unpacked-InRange p h = ground arith

unpacked_fields :
    (p : Packed)
    → HoldsTime p
    → p ≡ record {
      date = date_of (unpack p);
      time = time_of (unpack p);
      hundredths = hundredths_of (unpack p);
    }
unfolding unpack date_of time_of hundredths_of
unpacked_fields p h = ground arith

unpacked_unclamped : (p : Packed) → HoldsTime p → clamp_to_fat (unpack p) ≡ unpack p
unfolding unpack clamp_to_fat before
unpacked_unclamped p h = ground arith

unpacked_years :
    (p : Packed) → HoldsTime p → (first_year ≤ (unpack p).year) × ((unpack p).year ≤ last_year)
unfolding unpack
unpacked_years p h = ground arith

-- The fields of an entry that hold a date and a time of day come back from `unpack` and `pack` as
-- they were.
pub pack-unpack : (p : Packed) → HoldsTime p → pack (unpack p) ≡ p
unfolding pack
pack-unpack p h =
    let years = unpacked_years p h in
    rw (unpacked_unclamped p h, pack_fields-sums (unpack p) (unpacked-InRange p h) years.0 years.1)
      (sym (unpacked_fields p h))
