-- ===== src/Schedule/Names.antt =====
-- intelligence/schedule_parser.py: names as they are compared, and how alike two of them are.
use Prim.Native.Char.{Char, code}
use Prim.Native.String.{[] as empty_text, ◌∷◌ as char, count}
use api_dashboard.Prelude.{
  ℕ, zero, suc, ◌-◌, String, Bool, true, false, ◌&&◌, ◌||◌, not, Option, none, some, List, [], ◌∷◌,
  ltb, get_or, ◌==◌, nat_eq, string_eq, if◌then◌else◌,
}

-- Of the standard library: re.sub(r"\s+", "", t), str.lower, str.strip, str of a number; floats as
-- SequenceMatcher(None, a, b).ratio() gives them, `decimal n k` being the literal n / 10 ** k.
pub record Similarity (F : Type 0) : Type 0 where
  pub unspaced : String → String
  pub lower : String → String
  pub strip : String → String
  pub str : ℕ → String
  pub ratio : String → String → F
  pub decimal : ℕ → ℕ → F
  pub minus : F → F → F
  pub gt : F → F → Bool
  pub ge : F → F → Bool
  pub nonzero : F → Bool

-- t.startswith(s) is `starts_with t s`.
abbrev pub starts_with : String → String → Bool
starts_with t empty_text = true
starts_with empty_text (char d s) = false
starts_with (char c t) (char d s) = (code c == code d) && starts_with t s

-- t.endswith(s)
abbrev pub ends_with : String → String → Bool
ends_with empty_text s = empty_text == s
ends_with (char c t) s = (char c t == s) || ends_with t s

-- t[:n]
abbrev pub prefix : ℕ → String → String
prefix zero t = empty_text
prefix (suc n) empty_text = empty_text
prefix (suc n) (char c t) = char c (prefix n t)

-- t[-2] and t[-1], where len(t) > 1.
abbrev pub last_two : String → Option (Char × Char)
last_two empty_text = none
last_two (char c empty_text) = none
last_two (char c (char d empty_text)) = some (c, d)
last_two (char c (char d (char e t))) = last_two (char d (char e t))

abbrev pub is_t : Char → Bool
is_t c = (code c == 84) || (code c == 116)

-- The first of the suffixes that the text ends in, and is longer than, is cut off.
unfoldable pub without_suffix : List String → String → Option String
without_suffix [] text = none
without_suffix (suffix ∷ suffixes) text =
    let rest = without_suffix suffixes text in
    if ends_with text suffix && ltb (count suffix) (count text)
    then some (prefix (count text - count suffix) text)
    else rest

-- The else of that loop.
unfoldable pub without_t : String → String
without_t text = elim (last_two text) [
  | none ↦ text
  | some (c, d) ↦ if is_t d && not (is_t c) then prefix (count text - 1) text else text
]

abbrev pub suffixes : List String
suffixes = "선생님" ∷ "선생" ∷ "쌤" ∷ "샘" ∷ "티처" ∷ []

module _ {F : Type 0} (sim : Similarity F) where
  unfoldable pub normalize_teacher_name : Option String → String
  unfolding without_suffix without_t
  normalize_teacher_name name =
      let text = sim.unspaced (get_or name "") in
      sim.lower (get_or (without_suffix suffixes text) (without_t text))

  unfoldable pub normalize_course_name : Option String → String
  normalize_course_name name = sim.lower (sim.unspaced (get_or name ""))

  -- The score of a teacher in _teacher_scores, of two names that are not empty.
  unfoldable pub teacher_score : String → String → F
  teacher_score candidate target =
      if candidate == target
      then sim.decimal 1 0
      else if starts_with candidate target || starts_with target candidate
      then sim.decimal 9 1
      else if sim.ge (sim.ratio candidate target) (sim.decimal 75 2)
      then sim.ratio candidate target
      else sim.decimal 0 0
