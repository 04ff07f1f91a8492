-- ===== src/Util/Time/Calendar.antt =====
-- src/util/mod.rs: the civil date against the calendar.
use myrun.Prelude.{
  ℕ, zero, suc, ◌+◌, ◌-◌, ◌*◌, ◌/◌, ◌%◌, ◌≤◌, ◌<◌, ◌≡◌, refl, inl, inr, Bool, not, ◌&&◌, ◌||◌,
  arith, ltb, leb, ◌==◌, if◌then◌else◌, Bool-cases,
}
use myrun.Util.Time.{Date, civil_date}

abbrev is_leap : ℕ → Bool
is_leap y = y % 4 == 0 && not (y % 100 == 0) || y % 400 == 0

abbrev days_in_month : ℕ → ℕ → ℕ
days_in_month y m =
    if m == 2
    then (if is_leap y then 29 else 28)
    else if m == 4 || m == 6 || m == 9 || m == 11
    then 30
    else 31

-- The day after, by the calendar's rules.
abbrev pub next_day : Date → Date
next_day t =
    if ltb t.day (days_in_month t.year t.month)
    then record { year = t.year; month = t.month; day = t.day + 1 }
    else if t.month == 12
    then record { year = t.year + 1; month = 1; day = 1 }
    else record { year = t.year; month = t.month + 1; day = 1 }

start : civil_date 0 ≡ record { year = 1970; month = 1; day = 1 }
unfolding civil_date
start = refl

leap_day : civil_date 19782 ≡ record { year = 2024; month = 2; day = 29 }
unfolding civil_date
leap_day = refl

-- The days of an era before its year `y`, the years beginning in March.
abbrev before : ℕ → ℕ
before y = 365 * y + y / 4 - y / 100

abbrev year_of : ℕ → ℕ
year_of doe = (doe - doe / 1460 + doe / 36524 - doe / 146096) / 365

year_of-low : (doe : ℕ) → doe < 146097 → before (year_of doe) ≤ doe
year_of-low doe h = omega arith

year_of-high : (doe : ℕ) → doe < 146096 → doe < before (year_of doe + 1)
year_of-high doe h = omega arith

year_of-bound : (doe : ℕ) → doe < 146097 → year_of doe < 400
year_of-bound doe h = omega arith

-- The date of day `doy` of the year that begins in March of `y`.
abbrev in_year : ℕ → ℕ → Date
in_year y doy =
    let mp = (5 * doy + 2) / 153 in
    let d = doy - (153 * mp + 2) / 5 + 1 in
    let m = if ltb mp 10 then mp + 3 else mp - 9 in
    record { year = if leb m 2 then y + 1 else y; month = m; day = d }

-- The length of that year, which ends with February of the next.
abbrev year_days : ℕ → ℕ
year_days y = if is_leap (y + 1) then 366 else 365

next_in_year : (y doy : ℕ) → doy + 1 < year_days y → in_year y (doy + 1) ≡ next_day (in_year y doy)
next_in_year y doy h = by_month ((5 * doy + 2) / 153) refl
  where
    by_month : (mp : ℕ) → (5 * doy + 2) / 153 ≡ mp → in_year y (doy + 1) ≡ next_day (in_year y doy)
    by_month zero e = rw e (ground arith)
    by_month (suc zero) e = rw e (ground arith)
    by_month (suc (suc zero)) e = rw e (ground arith)
    by_month (suc (suc (suc zero))) e = rw e (ground arith)
    by_month (suc (suc (suc (suc zero)))) e = rw e (ground arith)
    by_month (suc (suc (suc (suc (suc zero))))) e = rw e (ground arith)
    by_month (suc (suc (suc (suc (suc (suc zero)))))) e = rw e (ground arith)
    by_month (suc (suc (suc (suc (suc (suc (suc zero))))))) e = rw e (ground arith)
    by_month (suc (suc (suc (suc (suc (suc (suc (suc zero)))))))) e = rw e (ground arith)
    by_month (suc (suc (suc (suc (suc (suc (suc (suc (suc zero))))))))) e = rw e (ground arith)
    by_month (suc (suc (suc (suc (suc (suc (suc (suc (suc (suc zero)))))))))) e =
        rw e (ground arith)
    by_month (suc (suc (suc (suc (suc (suc (suc (suc (suc (suc (suc zero))))))))))) e =
        rw e (ground arith)
    by_month (suc (suc (suc (suc (suc (suc (suc (suc (suc (suc (suc (suc mp)))))))))))) e =
        absurd (ground arith)

next_year : (y doy : ℕ) → doy + 1 ≡ year_days y → in_year (y + 1) 0 ≡ next_day (in_year y doy)
next_year y doy h = ground arith

-- The length of a year that ends within its era, and of the era's last.
year_days-inner : (era y : ℕ) → y < 399 → before y + year_days (y + era * 400) ≡ before (y + 1)
year_days-inner era y h = ground arith

year_days-last : (era : ℕ) → year_days (399 + era * 400) ≡ 366
year_days-last era = ground arith

before_mono : (y y' : ℕ) → y ≤ y' → before y ≤ before y'
before_mono y y' h = omega arith

year_of_unique :
    (doe y : ℕ) → doe < 146096 → before y ≤ doe → doe < before (y + 1) → year_of doe ≡ y
year_of_unique doe y h low high =
    let less = before_mono (year_of doe + 1) y in
    let more = before_mono (y + 1) (year_of doe) in
    let a = year_of-low doe (omega arith) in
    let b = year_of-high doe h in
    elim (Bool-cases (ltb (year_of doe) y)) [
      | inl e ↦ absurd (omega (arith, less (ground arith)))
      | inr e ↦ elim (Bool-cases (ltb y (year_of doe))) [
        | inl f ↦ absurd (omega (arith, more (ground arith)))
        | inr f ↦ ground arith
      ]
    ]

-- Day `doe` of era `era`.
abbrev in_era : ℕ → ℕ → Date
in_era era doe = in_year (year_of doe + era * 400) (doe - before (year_of doe))

civil_date-in_era : (n : ℕ) → civil_date n ≡ in_era ((n + 719468) / 146097) ((n + 719468) % 146097)
unfolding civil_date
civil_date-in_era n =
    let e : n + 719468 - (n + 719468) / 146097 * 146097 ≡ (n + 719468) % 146097 = omega arith in
    rw e refl

-- The two ways on from a day that is not the era's last but one.
same_year :
    (era doe y : ℕ)
    → before y ≤ doe
    → doe + 1 < before (y + 1)
    → doe + 1 < 146096
    → y < 400
    → in_year (y + era * 400) (doe + 1 - before y)
      ≡ next_day (in_year (y + era * 400) (doe - before y))
same_year era doe y low high k b =
    let one : doe + 1 - before y ≡ doe - before y + 1 = omega arith in
    let inside : doe - before y + 1 < year_days (y + era * 400) = elim (Bool-cases (y == 399)) [
      | inl e ↦
          let last : y ≡ 399 = ground arith in
          rw last (rw (year_days-last era) (omega (arith, last)))
      | inr e ↦ omega (arith, year_days-inner era y (ground arith))
    ] in
    rw one (next_in_year (y + era * 400) (doe - before y) inside)

first_of_year :
    (era doe y : ℕ)
    → before (y + 1) ≡ doe + 1
    → y < 399
    → in_year (y + 1 + era * 400) (doe + 1 - before (y + 1))
      ≡ next_day (in_year (y + era * 400) (doe - before y))
first_of_year era doe y e b =
    let whole = year_days-inner era y b in
    let zero_day : doe + 1 - before (y + 1) ≡ 0 = omega arith in
    let assoc : y + 1 + era * 400 ≡ y + era * 400 + 1 = omega arith in
    rw (zero_day, assoc)
      (next_year (y + era * 400) (doe - before y) (omega (arith, before_mono y (y + 1))))

next_in_era : (era doe : ℕ) → doe + 1 < 146097 → in_era era (doe + 1) ≡ next_day (in_era era doe)
next_in_era era doe h = elim (Bool-cases (doe == 146095)) [
  | inl e ↦
      let last : doe ≡ 146095 = ground arith in
      rw last (next_in_year (399 + era * 400) 364 (rw (year_days-last era) (omega arith)))
  | inr e ↦ inner (ground arith)
]
  where
    y : ℕ
    y = year_of doe

    inner : doe + 1 < 146096 → in_era era (doe + 1) ≡ next_day (in_era era doe)
    inner k =
        let low = year_of-low doe (omega arith) in
        let high = year_of-high doe (omega arith) in
        let bound = year_of-bound doe (omega arith) in
        elim (Bool-cases (ltb (doe + 1) (before (y + 1)))) [
          | inl e ↦
              let same : year_of (doe + 1) ≡ y =
                year_of_unique (doe + 1) y k (omega arith) (ground arith) in
              rw same (same_year era doe y low (ground arith) k bound)
          | inr e ↦
              let edge : before (y + 1) ≡ doe + 1 = ground arith in
              let more : year_of (doe + 1) ≡ y + 1 =
                year_of_unique (doe + 1) (y + 1) k (omega arith) (omega arith) in
              rw more (first_of_year era doe y edge (omega arith))
        ]

next_era : (era : ℕ) → in_era (era + 1) 0 ≡ next_day (in_era era 146096)
next_era era = ground arith

-- The dates follow the calendar: the day after each is the next, with its months' lengths and its
-- leap years.
pub civil_date-suc : (n : ℕ) → civil_date (n + 1) ≡ next_day (civil_date n)
civil_date-suc n =
    let era = (n + 719468) / 146097 in
    let doe = (n + 719468) % 146097 in
    rw (civil_date-in_era (n + 1), civil_date-in_era n)
      (elim (Bool-cases (doe == 146096)) [
        | inl e ↦
            let here : (n + 719468) % 146097 ≡ 146096 = ground arith in
            let a : (n + 1 + 719468) / 146097 ≡ era + 1 = omega arith in
            let b : (n + 1 + 719468) % 146097 ≡ 0 = omega arith in rw (a, b, here) (next_era era)
        | inr e ↦
            let less : doe + 1 < 146097 = ground arith in
            let a : (n + 1 + 719468) / 146097 ≡ era = omega arith in
            let b : (n + 1 + 719468) % 146097 ≡ doe + 1 = omega arith in
            rw (a, b) (next_in_era era doe less)
      ])
