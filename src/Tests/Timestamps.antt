-- ===== src/Tests/Timestamps.antt =====
-- Date-times packed and unpacked.
use resident_fat.Prelude.{◌≡◌, refl, none, some, arith}
use resident_fat.Time.{DateTime, Packed, epoch, days_in_month, new, pack, unpack}
use resident_fat.Time.Packing.{to_centiseconds, HoldsTime, unpack-pack, pack-unpack}

abbrev leap_day : DateTime
leap_day = record {
  year = 2024;
  month = 2;
  day = 29;
  hour = 13;
  minute = 37;
  second = 59;
  millisecond = 998;
}

epoch_packed : pack epoch ≡ record { date = 0x21; time = 0; hundredths = 0 }
unfolding pack
epoch_packed = refl

no_such_day : new 2100 2 29 0 0 0 0 ≡ none
unfolding new days_in_month
no_such_day = refl

leap_day-new : new 2024 2 29 13 37 59 998 ≡ some leap_day
unfolding new days_in_month
leap_day-new = refl

unpack-pack_example : unpack (pack leap_day) ≡ to_centiseconds leap_day
unpack-pack_example = unpack-pack 2024 2 29 13 37 59 998 leap_day leap_day-new

abbrev stored : Packed
stored = record { date = 0x5A21; time = 0x6CBD; hundredths = 199 }

stored-HoldsTime : HoldsTime stored
stored-HoldsTime = omega arith

pack-unpack_example : pack (unpack stored) ≡ stored
pack-unpack_example = pack-unpack stored stored-HoldsTime
