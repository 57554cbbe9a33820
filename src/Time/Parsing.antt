-- ===== src/Time/Parsing.antt =====
-- `TimeRange.parse` of src/kdiff/core/contracts.py, over the code points of the text.
-- The patterns' `\d` is read as an ASCII digit.
use knowledge_diffusion.Base.{
  Bool, List, Option, Result, [], all, if◌then◌else◌, leb, none, ok, pos, some, ℕ, ◌&&◌, ◌*◌, ◌+◌,
  ◌-◌, ◌==◌, ◌>>=◌, ◌∷◌,
}
use knowledge_diffusion.Time.{
  Date, TimeRange, TimeError, Precision, day, month, year, bounded, unknown_range, valid_range,
  make_date, month_days,
}

abbrev pub is_digit : ℕ → Bool
is_digit c = leb 48 c && leb c 57

-- The number that digits spell, most significant first.
abbrev pub number : List ℕ → ℕ → ℕ
number [] n = n
number (c ∷ cs) n = number cs (n * 10 + (c - 48))

-- `cls(lower=lo, upper=hi, precision=precision, raw=s, end_kind="bounded")`
abbrev pub bounded_range : Date → Date → Precision → List ℕ → Result TimeError TimeRange
bounded_range lo hi precision s = valid_range (record {
  lower = some lo;
  upper = some hi;
  precision = precision;
  end_kind = bounded;
  raw = some s;
})

unfoldable pub year_range : ℕ → List ℕ → Result TimeError TimeRange
unfolding make_date valid_range
year_range y s = do
  lo ← make_date (pos y) 1 1
  hi ← make_date (pos y) 12 31
  bounded_range lo hi year s

unfoldable pub month_range : ℕ → ℕ → List ℕ → Result TimeError TimeRange
unfolding make_date valid_range
month_range y m s = do
  lo ← make_date (pos y) m 1
  hi ← make_date (pos y) m (month_days y m)
  bounded_range lo hi month s

unfoldable pub day_range : ℕ → ℕ → ℕ → List ℕ → Result TimeError TimeRange
unfolding make_date valid_range
day_range y m d s = do lo ← make_date (pos y) m d; bounded_range lo lo day s

-- Text that fits no pattern stays unknown.
abbrev pub prose : List ℕ → Result TimeError TimeRange
prose s = valid_range (record unknown_range { raw = some s })

unfoldable pub parse_text : List ℕ → Result TimeError TimeRange
unfolding year_range month_range day_range
parse_text (a ∷ b ∷ c ∷ d ∷ []) =
    let s = a ∷ b ∷ c ∷ d ∷ [] in if all is_digit s then year_range (number s 0) s else prose s
parse_text (a ∷ b ∷ c ∷ d ∷ h ∷ e ∷ f ∷ []) =
    let s = a ∷ b ∷ c ∷ d ∷ h ∷ e ∷ f ∷ [] in
    if all is_digit (a ∷ b ∷ c ∷ d ∷ e ∷ f ∷ []) && h == b'-'
    then month_range (number (a ∷ b ∷ c ∷ d ∷ []) 0) (number (e ∷ f ∷ []) 0) s
    else prose s
parse_text (a ∷ b ∷ c ∷ d ∷ h ∷ e ∷ f ∷ k ∷ g ∷ i ∷ []) =
    let s = a ∷ b ∷ c ∷ d ∷ h ∷ e ∷ f ∷ k ∷ g ∷ i ∷ [] in
    if all is_digit (a ∷ b ∷ c ∷ d ∷ e ∷ f ∷ g ∷ i ∷ []) && h == b'-' && k == b'-'
    then day_range (number (a ∷ b ∷ c ∷ d ∷ []) 0) (number (e ∷ f ∷ []) 0) (number (g ∷ i ∷ []) 0) s
    else prose s
parse_text s = prose s

unfoldable pub parse : Option (List ℕ) → Result TimeError TimeRange
unfolding parse_text
parse none = ok unknown_range
parse (some s) = parse_text s
