-- ===== src/Util/Time.antt =====
-- src/util/mod.rs: the civil date of a time stamp. Stamps are `u64` milliseconds, so the seconds are
-- never negative, and the branches for days before the epoch of the algorithm are never taken.
pub mod Calendar
use myrun.Prelude.{
  ℕ, ◌+◌, ◌-◌, ◌*◌, ◌/◌, ◌%◌, ◌++◌, ltb, leb, ◌==◌, if◌then◌else◌, length, List, [], ◌∷◌, zero, suc,
}
use myrun.Text.{Text, codes}
use myrun.Text.Number.{show_nat}

pub record Date : Type 0 where
  pub year : ℕ
  pub month : ℕ
  pub day : ℕ

-- The date of a number of days since the epoch.
unfoldable pub civil_date : ℕ → Date
civil_date days =
    let z = days + 719468 in
    let era = z / 146097 in
    let doe = z - era * 146097 in
    let yoe = (doe - doe / 1460 + doe / 36524 - doe / 146096) / 365 in
    let y = yoe + era * 400 in
    let doy = doe - (365 * yoe + yoe / 4 - yoe / 100) in
    let mp = (5 * doy + 2) / 153 in
    let d = doy - (153 * mp + 2) / 5 + 1 in
    let m = if ltb mp 10 then mp + 3 else mp - 9 in
    record { year = if leb m 2 then y + 1 else y; month = m; day = d }

pub record Civil : Type 0 where
  pub date : Date
  pub hour : ℕ
  pub minute : ℕ
  pub second : ℕ

unfoldable pub civil_from_epoch : ℕ → Civil
unfolding civil_date
civil_from_epoch secs =
    let rem = secs % 86400 in
    record {
      date = civil_date (secs / 86400);
      hour = rem / 3600;
      minute = rem % 3600 / 60;
      second = rem % 60;
    }

abbrev zeros : ℕ → Text
zeros zero = []
zeros (suc n) = b'0' ∷ zeros n

-- `{:0w}`
abbrev padded : ℕ → ℕ → Text
padded w n = zeros (w - length (show_nat n)) ++ show_nat n

unfoldable pub format_time : ℕ → Text
unfolding civil_from_epoch
format_time ms =
    let t = civil_from_epoch (ms / 1000) in
    if ms == 0
    then codes "-"
    else padded 4 t.date.year
      ++ (codes "-"
          ++ (padded 2 t.date.month
              ++ (codes "-"
                  ++ (padded 2 t.date.day
                      ++ (codes "T"
                          ++ (padded 2 t.hour
                              ++ (codes ":"
                                  ++ (padded 2 t.minute
                                      ++ (codes ":" ++ (padded 2 t.second ++ codes "Z"))))))))))
