-- ===== src/Config/Characters.antt =====
-- The tests on characters and texts that src/config.rs takes from Rust's standard library.
use hushwire.Common.{
  ℕ, ◌+◌, ◌-◌, ◌*◌, ◌^◌, Bool, true, false, ◌&&◌, ◌||◌, List, [], ◌∷◌, Option, none, some, ltb, leb,
  ◌==◌, if◌then◌else◌,
}
use hushwire.Common.Maps.{Text}

-- `char::is_whitespace`
unfoldable pub is_whitespace : ℕ → Bool
is_whitespace c =
    (leb 9 c && leb c 13)
    || (c == 32
        || (c == 0x85
            || (c == 0xa0
                || (c == 0x1680
                    || ((leb 0x2000 c && leb c 0x200a)
                        || (c == 0x2028
                            || (c == 0x2029 || (c == 0x202f || (c == 0x205f || c == 0x3000)))))))))

unfoldable pub trim_start : Text → Text
unfolding is_whitespace
trim_start [] = []
trim_start (c ∷ text) = let rest = trim_start text in if is_whitespace c then rest else c ∷ text

unfoldable pub trim_end : Text → Text
unfolding is_whitespace
trim_end [] = []
trim_end (c ∷ text) = elim (trim_end text) [
  | [] ↦ if is_whitespace c then [] else c ∷ []
  | d ∷ rest ↦ c ∷ d ∷ rest
]

unfoldable pub trim : Text → Text
unfolding trim_start trim_end
trim text = trim_end (trim_start text)

abbrev pub is_empty : Text → Bool
is_empty [] = true
is_empty (c ∷ text) = false

-- `u8::is_ascii_alphanumeric`
unfoldable pub is_alphanumeric : ℕ → Bool
is_alphanumeric c =
    (leb b'0' c && leb c b'9') || ((leb b'A' c && leb c b'Z') || (leb b'a' c && leb c b'z'))

abbrev pub all_chars : (ℕ → Bool) → Text → Bool
all_chars p [] = true
all_chars p (c ∷ text) = p c && all_chars p text

abbrev pub contains_char : ℕ → Text → Bool
contains_char k [] = false
contains_char k (c ∷ text) = c == k || contains_char k text

-- `rsplit_once`: the text before the last such character, and after it.
unfoldable pub rsplit_once : ℕ → Text → Option (Text × Text)
rsplit_once k [] = none
rsplit_once k (c ∷ text) = elim (rsplit_once k text) [
  | some (before, after) ↦ some (c ∷ before, after)
  | none ↦ if c == k then some ([], text) else none
]

abbrev with_char : ℕ → List Text → List Text
with_char c [] = (c ∷ []) ∷ []
with_char c (part ∷ parts) = (c ∷ part) ∷ parts

-- `split` on a character, which gives one part more than it meets separators.
unfoldable pub split_on : ℕ → Text → List Text
split_on k [] = [] ∷ []
split_on k (c ∷ text) =
    let parts = split_on k text in if c == k then [] ∷ parts else with_char c parts

-- The digits of a number, within `u16`; `none` is an error.
unfoldable pub digits_value : ℕ → Text → Option ℕ
digits_value value [] = some value
digits_value value (c ∷ text) = elim (leb b'0' c && leb c b'9') [
  | false ↦ none
  | true ↦
      let next = value * 10 + (c - b'0') in
      elim (ltb next (2 ^ 16)) [ false ↦ none | true ↦ digits_value next text ]
]

-- `parse::<u16>()`, which takes a plus sign.
unfoldable pub parse_u16 : Text → Option ℕ
unfolding digits_value
parse_u16 [] = none
parse_u16 (c ∷ text) =
    if c == b'+'
    then if is_empty text then none else digits_value 0 text
    else digits_value 0 (c ∷ text)

-- `str::lines`: a line ends at a line feed, and a carriage return before it is no part of the line.
unfoldable pub lines : Text → List Text
lines [] = []
lines (c ∷ text) =
    let rest = lines text in
    let crlf : Bool = elim text [ [] ↦ false | d ∷ more ↦ c == 13 && d == 10 ] in
    if c == 10
    then [] ∷ rest
    else if crlf
    then rest
    else elim rest [ [] ↦ (c ∷ []) ∷ [] | line ∷ more ↦ (c ∷ line) ∷ more ]

abbrev at_word_end : Text → Bool
at_word_end [] = true
at_word_end (c ∷ text) = is_whitespace c

unfoldable pub split_whitespace : Text → List Text
unfolding is_whitespace
split_whitespace [] = []
split_whitespace (c ∷ text) =
    let rest = split_whitespace text in
    if is_whitespace c then rest else if at_word_end text then (c ∷ []) ∷ rest else with_char c rest
