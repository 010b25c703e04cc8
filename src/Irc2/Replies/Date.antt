-- ===== src/Irc2/Replies/Date.antt =====
-- The date of TIME: Protocol::doTIME, home/kineircd/src/lib_irc2/common.cpp. The fields of localtime are
-- a parameter.
use kineircd.Prelude.{
  ℕ, zero, suc, ◌+◌, ◌<◌, ◌≡◌, refl, List, [], ◌∷◌, ◌++◌, Option, none, some, if◌then◌else◌, length,
  get_elem?, arith,
}
use kineircd.Prelude.Text.{Text, codes}
use kineircd.Prelude.Int.{ℤ, is_positive}
use kineircd.Prelude.Decimal.{decimal, field}
use kineircd.Irc2.Replies.Time.{padded, hours_east, minutes_east}

-- A moment as localtime gives it: the year counts from 1900.
pub record Date : Type 0 where
  pub day_of_week : ℕ
  pub month : ℕ
  pub day : ℕ
  pub years : ℕ
  pub hour : ℕ
  pub minute : ℕ

abbrev months : List Text
months =
    codes "January"
    ∷ codes "February"
    ∷ codes "March"
    ∷ codes "April"
    ∷ codes "May"
    ∷ codes "June"
    ∷ codes "July"
    ∷ codes "August"
    ∷ codes "September"
    ∷ codes "October"
    ∷ codes "November"
    ∷ codes "December"
    ∷ []

abbrev days : List Text
days =
    codes "Sunday"
    ∷ codes "Monday"
    ∷ codes "Tuesday"
    ∷ codes "Wednesday"
    ∷ codes "Thursday"
    ∷ codes "Friday"
    ∷ codes "Saturday"
    ∷ []

-- The text behind the names of the day and the month. `timezone` is in seconds west of Greenwich.
unfoldable pub clock_text : ℤ → Date → Text
unfolding decimal field padded hours_east minutes_east
clock_text timezone d =
    decimal d.day
    ++ (b' '
        ∷ (decimal (d.years + 1900)
            ++ (codes " -- "
                ++ (field b'0' 2 d.hour
                    ++ (b':'
                        ∷ (field b'0' 2 d.minute
                            ++ (b' '
                                ∷ (if is_positive timezone then b'-' else b'+')
                                ∷ (padded (hours_east timezone)
                                    ++ (b':' ∷ padded (minutes_east timezone))))))))))

-- There is no text where a field is behind its table.
unfoldable pub date_text : ℤ → Date → Option Text
unfolding clock_text
date_text timezone d = elim (get_elem? days d.day_of_week) [
  | none ↦ none
  | some day ↦ elim (get_elem? months d.month) [
    | none ↦ none
    | some month ↦ some (day ++ (b' ' ∷ (month ++ (b' ' ∷ clock_text timezone d))))
  ]
]

get_elem_below : (ts : List Text) (n : ℕ) → n < length ts → (t : Text) × (get_elem? ts n ≡ some t)
get_elem_below [] n h = absurd (omega arith)
get_elem_below (t ∷ ts) zero h = (t, refl)
get_elem_below (t ∷ ts) (suc n) h = get_elem_below ts n (omega arith)

-- localtime gives a day of the week below 7 and a month below 12: then there is a date.
pub date_text-some :
    (timezone : ℤ) (d : Date)
    → d.day_of_week < 7
    → d.month < 12
    → (t : Text) × (date_text timezone d ≡ some t)
unfolding date_text
date_text-some timezone d h k =
    let (day, e) = get_elem_below days d.day_of_week h in
    let (month, f) = get_elem_below months d.month k in
    (day ++ (b' ' ∷ (month ++ (b' ' ∷ clock_text timezone d))), rw (date_text, e, f) refl)
