-- ===== src/Prelude/Text.antt =====
-- What the program uses of Python's `str`: `join`, `split`, `in` with `find`, `strip("\n")`.
use Prim.Native.Nat.{Ordering, ℕ, zero, suc, ◌+◌, ◌*◌, ◌-◌}
use mathlib.Core.Bool.{◌&&◌, ◌||◌}
use mathlib.Core.Option
use sieve.Prelude.Int.{ℤ, pos, negsuc}
use sieve.Prelude.Tests.{leb}
use Prim.Native.Char.{Char, code}
use Prim.Native.String
use Prim.Native.String.{String}
use mathlib.Core.Bool.{Bool, true, false}
use mathlib.Core.List.{List, [], ◌∷◌}
use mathlib.Core.Path.{◌≡◌, refl}
use mathlib.Core.Logic.{◌≢◌, inl, inr}
use mathlib.Core.Option.{Option, none, some}
use text.Mathlib.Text.{starts_with}
use sieve.Prelude.Tests.{if◌then◌else◌, nat_eq, Bool-cases}

-- `sep.join(parts)`
unfoldable pub join : String → List String → String
join sep [] = ""
join sep (s ∷ []) = s
join sep (s ∷ t ∷ ts) = String.◌++◌ s (String.◌++◌ sep (join sep (t ∷ ts)))

-- One more character at the front of the first part.
unfoldable pub onto_first : Char → List String → List String
onto_first c [] = String.◌∷◌ c "" ∷ []
onto_first c (s ∷ ss) = String.◌∷◌ c s ∷ ss

-- `s.split(sep)` for a separator of one character, given by its code
unfoldable pub split : ℕ → String → List String
unfolding onto_first
split sep String.[] = "" ∷ []
split sep (String.◌∷◌ c s) =
    let rest = split sep s in if nat_eq (code c) sep then "" ∷ rest else onto_first c rest

-- `line[line.find(mark):]` where `mark in line`, and `none` where it is not
unfoldable pub from_mark : String → String → Option String
from_mark mark String.[] = if starts_with "" mark then some "" else none
from_mark mark (String.◌∷◌ c s) =
    let rest = from_mark mark s in
    if starts_with (String.◌∷◌ c s) mark then some (String.◌∷◌ c s) else rest

-- `s.lstrip("\n")` and `s.rstrip("\n")`
unfoldable pub strip_left : String → String
strip_left String.[] = ""
strip_left (String.◌∷◌ c s) =
    let rest = strip_left s in if nat_eq (code c) 10 then rest else String.◌∷◌ c s

unfoldable pub drop_newline : Char → String → String
drop_newline c String.[] = if nat_eq (code c) 10 then "" else String.◌∷◌ c ""
drop_newline c (String.◌∷◌ d s) = String.◌∷◌ c (String.◌∷◌ d s)

unfoldable pub strip_right : String → String
unfolding drop_newline
strip_right String.[] = ""
strip_right (String.◌∷◌ c s) = drop_newline c (strip_right s)

unfoldable pub ends_with_code : ℕ → String → Bool
ends_with_code n String.[] = false
ends_with_code n (String.◌∷◌ c String.[]) = nat_eq (code c) n
ends_with_code n (String.◌∷◌ c (String.◌∷◌ d s)) = ends_with_code n (String.◌∷◌ d s)

abbrev negate : ℕ → ℤ
negate zero = pos 0
negate (suc n) = negsuc n

-- `int(s)`, for an optional sign and decimal digits
abbrev pub digits : ℕ → String → Option ℕ
digits n String.[] = some n
digits n (String.◌∷◌ c s) =
    let rest = digits (n * 10 + (code c - b'0')) s in
    if leb b'0' (code c) && leb (code c) b'9' then rest else none

unfoldable pub int : String → Option ℤ
int String.[] = none
int (String.◌∷◌ c String.[]) = Option.map pos (digits 0 (String.◌∷◌ c ""))
int (String.◌∷◌ c (String.◌∷◌ d s)) =
    if nat_eq (code c) b'-'
    then Option.map negate (digits 0 (String.◌∷◌ d s))
    else if nat_eq (code c) b'+'
    then Option.map pos (digits 0 (String.◌∷◌ d s))
    else Option.map pos (digits 0 (String.◌∷◌ c (String.◌∷◌ d s)))

-- `a <= b` on texts: by the codes of their characters
abbrev pub text_le : String → String → Bool
text_le a b = elim (String.compare a b) [ Ordering.gt ↦ false | _ ↦ true ]

-- One more text in a sorted list; `l.sort()` inserts one after another.
unfoldable pub insert_sorted : String → List String → List String
insert_sorted s [] = s ∷ []
insert_sorted s (t ∷ ts) =
    let rest = insert_sorted s ts in if text_le s t then s ∷ t ∷ ts else t ∷ rest

unfoldable pub sort : List String → List String
unfolding insert_sorted
sort [] = []
sort (s ∷ ss) = insert_sorted s (sort ss)

-- `s[:-n]`
abbrev take_text : ℕ → String → String
take_text zero s = ""
take_text (suc n) String.[] = ""
take_text (suc n) (String.◌∷◌ c s) = String.◌∷◌ c (take_text n s)

unfoldable pub drop_last : ℕ → String → String
drop_last n s = take_text (String.count s - n) s

-- `s[:1].lower() + s[1:]`, on the letters of ASCII
abbrev lower_among : String → String → Char → Char
lower_among String.[] lowers c = c
lower_among (String.◌∷◌ u uppers) String.[] c = c
lower_among (String.◌∷◌ u uppers) (String.◌∷◌ l lowers) c =
    let rest = lower_among uppers lowers c in if nat_eq (code u) (code c) then l else rest

unfoldable pub lower_first : String → String
lower_first String.[] = ""
lower_first (String.◌∷◌ c s) =
    String.◌∷◌ (lower_among "ABCDEFGHIJKLMNOPQRSTUVWXYZ" "abcdefghijklmnopqrstuvwxyz" c) s

insert_sorted_nonempty : (s : String) (ss : List String) → insert_sorted s ss ≢ []
unfolding insert_sorted
insert_sorted_nonempty s [] h = cc
insert_sorted_nonempty s (t ∷ ts) h = elim (Bool-cases (text_le s t)) [
  | inl b ↦ let f : s ∷ t ∷ ts ≡ [] = rw b at h in cc
  | inr b ↦ let f : t ∷ insert_sorted s ts ≡ [] = rw b at h in cc
]

pub sort_empty : (ss : List String) → sort ss ≡ [] → ss ≡ []
unfolding sort
sort_empty [] h = refl
sort_empty (s ∷ ss) h = absurd (insert_sorted_nonempty s (sort ss) h)

-- `s.strip()`, of the white space of ASCII
abbrev is_space : ℕ → Bool
is_space n = nat_eq n 32 || (leb 9 n && leb n 13) || (leb 28 n && leb n 31)

abbrev strip_front : String → String
strip_front String.[] = ""
strip_front (String.◌∷◌ c s) =
    let rest = strip_front s in if is_space (code c) then rest else String.◌∷◌ c s

abbrev drop_space : Char → String → String
drop_space c String.[] = if is_space (code c) then "" else String.◌∷◌ c ""
drop_space c (String.◌∷◌ d s) = String.◌∷◌ c (String.◌∷◌ d s)

abbrev strip_back : String → String
strip_back String.[] = ""
strip_back (String.◌∷◌ c s) = drop_space c (strip_back s)

unfoldable pub strip : String → String
strip s = strip_back (strip_front s)
