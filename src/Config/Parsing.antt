-- ===== src/Config/Parsing.antt =====
-- The functions of Rust's standard library by which config.rs reads its variables.
use place_home.Prelude.{
  ℕ, zero, suc, ◌+◌, ◌-◌, ◌*◌, ◌/◌, ◌%◌, ◌^◌, ◌<◌, ◌≡◌, refl, Bool, true, false, not, ◌&&◌, ◌||◌,
  Option, none, some, List, [], ◌∷◌, ◌++◌, if◌then◌else◌, ltb, leb, eqb, arith,
}
use place_home.Prelude.Text.{Str, str, str_eq, starts_with, ends_with}

-- `char::is_whitespace`
unfoldable pub is_whitespace : ℕ → Bool
is_whitespace c =
    if leb 9 c && leb c 13
    then true
    else if leb 8192 c && leb c 8202
    then true
    else if eqb c 32 || eqb c 133
    then true
    else if eqb c 160 || eqb c 5760
    then true
    else if eqb c 8232 || eqb c 8233
    then true
    else if eqb c 8239 || eqb c 8287
    then true
    else eqb c 12288

trim_start : Str → Str
trim_start [] = []
trim_start (c ∷ s) = let rest = trim_start s in if is_whitespace c then rest else c ∷ s

trim_end_cons : ℕ → Str → Str
trim_end_cons c [] = if is_whitespace c then [] else c ∷ []
trim_end_cons c (d ∷ s) = c ∷ d ∷ s

trim_end : Str → Str
unfolding trim_end_cons
trim_end [] = []
trim_end (c ∷ s) = trim_end_cons c (trim_end s)

unfoldable pub trim : Str → Str
unfolding is_whitespace trim_start trim_end
trim s = trim_end (trim_start s)

to_ascii_lowercase : ℕ → ℕ
to_ascii_lowercase c = if leb 65 c && leb c 90 then c + 32 else c

unfoldable pub eq_ignore_ascii_case : Str → Str → Bool
unfolding to_ascii_lowercase
eq_ignore_ascii_case [] [] = true
eq_ignore_ascii_case (a ∷ s) (b ∷ t) =
    if eqb (to_ascii_lowercase a) (to_ascii_lowercase b) then eq_ignore_ascii_case s t else false
eq_ignore_ascii_case _ _ = false

-- The digits that are left, and the value of those before them; none where it passes `2 ^ w`.
unfoldable pub parse_digits : ℕ → ℕ → Str → Option ℕ
parse_digits w acc [] = some acc
parse_digits w acc (c ∷ s) =
    let rest = parse_digits w (acc * 10 + (c - 48)) s in
    if leb 48 c && leb c 57 then if ltb (acc * 10 + (c - 48)) (2 ^ w) then rest else none else none

-- `parse::<u16>()` and `parse::<u32>()` for the width `w`: a sign "+" may stand before the digits.
unfoldable pub parse_uint : ℕ → Str → Option ℕ
unfolding parse_digits
parse_uint w [] = none
parse_uint w (c ∷ []) = parse_digits w 0 (c ∷ [])
parse_uint w (c ∷ d ∷ s) =
    if eqb c b'+' then parse_digits w 0 (d ∷ s) else parse_digits w 0 (c ∷ d ∷ s)

parse_digits-lt : (w acc n : ℕ) (s : Str) → acc < 2 ^ w → parse_digits w acc s ≡ some n → n < 2 ^ w
unfolding parse_digits
parse_digits-lt w acc n [] h e = ground arith
parse_digits-lt w acc n (c ∷ s) h e = ground (arith, parse_digits-lt w (acc * 10 + (c - 48)) n s)

two_pow-pos : (w : ℕ) → 0 < 2 ^ w
two_pow-pos zero = omega arith
two_pow-pos (suc w) = omega (arith, two_pow-pos w)

-- A number that is read fits its width.
pub parse_uint-lt : (w n : ℕ) (s : Str) → parse_uint w s ≡ some n → n < 2 ^ w
unfolding parse_uint
parse_uint-lt w n [] e = absurd cc
parse_uint-lt w n (c ∷ []) e = parse_digits-lt w 0 n (c ∷ []) (two_pow-pos w) e
parse_uint-lt w n (c ∷ d ∷ s) e = ground (
  arith,
  parse_digits-lt w 0 n (d ∷ s) (two_pow-pos w),
  parse_digits-lt w 0 n (c ∷ d ∷ s) (two_pow-pos w),
)

-- `to_string` of a number, on fuel: the digits of `n` before those in `rest`.
unfoldable pub digits : ℕ → ℕ → Str → Str
digits zero n rest = rest
digits (suc fuel) n rest =
    let more = digits fuel (n / 10) ((48 + n % 10) ∷ rest) in
    if ltb n 10 then (48 + n) ∷ rest else more

unfoldable pub to_string : ℕ → Str
unfolding digits
to_string n = digits (suc n) n []

-- `split(c)`; there is always a piece
unfoldable pub split_cons : ℕ → ℕ → List Str → List Str
split_cons c d [] = if eqb d c then [] ∷ [] else (d ∷ []) ∷ []
split_cons c d (piece ∷ pieces) = if eqb d c then [] ∷ piece ∷ pieces else (d ∷ piece) ∷ pieces

unfoldable pub split : ℕ → Str → List Str
unfolding split_cons
split c [] = [] ∷ []
split c (d ∷ s) = split_cons c d (split c s)

-- `PathBuf::join`
unfoldable pub join : Str → Str → Str
join dir path =
    if starts_with (str "/") path
    then path
    else if str_eq dir []
    then path
    else if ends_with (str "/") dir
    then dir ++ path
    else dir ++ str "/" ++ path

is_component : List Str → Bool
is_component [] = false
is_component (piece ∷ pieces) =
    let rest = is_component pieces in
    if str_eq piece [] then rest else if str_eq piece (str ".") then rest else true

-- Whether `parent()` is some path.
unfoldable pub has_parent : Str → Bool
unfolding is_component
has_parent path =
    if starts_with (str "/") path then is_component (split b'/' path) else not (str_eq path [])

-- Whether a piece between slashes is no component of its path: a dot counts as one only where it
-- stands first in a relative path.
is_skipped : Bool → Str → Bool
is_skipped first piece = str_eq piece [] || (str_eq piece (str ".") && not first)

-- Before the last component, once what follows the piece is known: none if it has no component.
before_last : Bool → Str → Option (List Str) → Option (List Str)
unfolding is_skipped
before_last first piece none = if is_skipped first piece then none else some []
before_last first piece (some []) = if is_skipped first piece then some [] else some (piece ∷ [])
before_last first piece (some (p ∷ pieces)) = some (piece ∷ p ∷ pieces)

drop_last : Bool → List Str → Option (List Str)
unfolding before_last
drop_last first [] = none
drop_last first (piece ∷ pieces) = before_last first piece (drop_last false pieces)

join_pieces : List Str → Str
join_pieces [] = []
join_pieces (piece ∷ []) = piece
join_pieces (piece ∷ p ∷ pieces) = let rest = join_pieces (p ∷ pieces) in piece ++ b'/' ∷ rest

prepend_root : Option (List Str) → Option Str
unfolding join_pieces
prepend_root none = none
prepend_root (some pieces) = some (b'/' ∷ join_pieces pieces)

join_relative : Option (List Str) → Option Str
unfolding join_pieces
join_relative none = none
join_relative (some pieces) = some (join_pieces pieces)

-- `Path::parent`
unfoldable pub parent : Str → Option Str
unfolding split drop_last prepend_root join_relative
parent [] = none
parent (c ∷ path) =
    if eqb c b'/'
    then prepend_root (drop_last false (split b'/' path))
    else join_relative (drop_last true (split b'/' (c ∷ path)))

newline : str "a\nb" ≡ 97 ∷ 10 ∷ 98 ∷ []
newline = refl
