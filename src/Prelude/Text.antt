-- ===== src/Prelude/Text.antt =====
-- `String` and `&str` as the list of their code points, with the operations of Rust's standard
-- library that the program uses.
use Prim.Native.Nat.{ℕ, zero, suc}
use Prim.Native.Char.{code}
use Prim.Native.String.{String}
use mathlib.Core.Path.{◌≡◌, refl, ap}
use mathlib.Core.Option.{Option, none, some}
use mathlib.Core.Bool.{Bool, true, false}
use mathlib.Core.Logic.{◌↔◌, inl, inr}
use mathlib.Core.List.{List, [], ◌∷◌, ◌++◌}
use native.Mathlib.Omega.{arith}
use place_home.Prelude.Tests.{if◌then◌else◌, Bool-cases, Option-cases, Eq, eqb}
use place_home.Prelude.Lists.{length, length-append}

abbrev pub Str : Type 0
Str = List ℕ

-- A text literal.
abbrev pub str : String → Str
str String.[] = []
str (String.◌∷◌ c s) = code c ∷ str s

abbrev pub str_eq : Str → Str → Bool
str_eq [] [] = true
str_eq (a ∷ s) (b ∷ t) = if eqb a b then str_eq s t else false
str_eq _ _ = false

pub str_eq_iff : (s t : Str) → (str_eq s t ≡ true) ↔ (s ≡ t)
str_eq_iff [] [] = ground arith
str_eq_iff (a ∷ s) [] = ground arith
str_eq_iff [] (b ∷ t) = ground arith
str_eq_iff (a ∷ s) (b ∷ t) = ground (arith, str_eq_iff s t)

instance abbrev pub str_has_eq : Eq Str
str_has_eq = record { eq = str_eq; eq_reflects = str_eq_iff }

unfoldable pub starts_with : Str → Str → Bool
starts_with [] s = true
starts_with (p ∷ prefix) [] = false
starts_with (p ∷ prefix) (c ∷ s) = if eqb p c then starts_with prefix s else false

-- `s[n..]`
unfoldable pub drop : ℕ → Str → Str
drop zero s = s
drop (suc n) [] = []
drop (suc n) (c ∷ s) = drop n s

abbrev keep_first : ℕ → Option Str → Option Str
keep_first c none = none
keep_first c (some s) = some (c ∷ s)

-- What stands before a suffix.
unfoldable pub strip_suffix : Str → Str → Option Str
strip_suffix suffix [] = if str_eq [] suffix then some [] else none
strip_suffix suffix (c ∷ s) =
    let rest = strip_suffix suffix s in if str_eq (c ∷ s) suffix then some [] else keep_first c rest

unfoldable pub ends_with : Str → Str → Bool
unfolding strip_suffix
ends_with suffix s = elim (strip_suffix suffix s) [ none ↦ false | some _ ↦ true ]

trim_cons : ℕ → ℕ → Str → Str
trim_cons c d [] = if eqb d c then [] else d ∷ []
trim_cons c d (x ∷ s) = d ∷ x ∷ s

-- `trim_end_matches(c)`
unfoldable pub trim_end_matches : ℕ → Str → Str
unfolding trim_cons
trim_end_matches c [] = []
trim_end_matches c (d ∷ s) = trim_cons c d (trim_end_matches c s)

longer_ne : (c : ℕ) (p s : Str) → str_eq (c ∷ (p ++ s)) s ≡ false
longer_ne c p s = elim (Bool-cases (str_eq (c ∷ (p ++ s)) s)) [
  | inr e ↦ e
  | inl e ↦
      absurd
        (omega (arith, ap (length {A = ℕ}) ((str_eq_iff (c ∷ (p ++ s)) s).0 e), length-append p s))
]

-- A suffix that was appended is stripped again.
pub strip_suffix-append : (suffix p : Str) → strip_suffix suffix (p ++ suffix) ≡ some p
unfolding strip_suffix
strip_suffix-append [] [] = refl
strip_suffix-append (c ∷ suffix) [] = ground (arith, str_eq_iff (c ∷ suffix) (c ∷ suffix))
strip_suffix-append suffix (c ∷ p) = rw (longer_ne c p suffix) (rw (strip_suffix-append suffix p))

-- What is stripped, followed by the suffix, is the text.
pub append_of_strip_suffix : (suffix s p : Str) → strip_suffix suffix s ≡ some p → s ≡ p ++ suffix
unfolding strip_suffix
append_of_strip_suffix suffix [] p e = ground (arith, str_eq_iff [] suffix)
append_of_strip_suffix suffix (c ∷ s) p e = elim (Bool-cases (str_eq (c ∷ s) suffix)) [
  | inl h ↦ ground (arith, (str_eq_iff (c ∷ s) suffix).0 h)
  | inr h ↦ elim (Option-cases (strip_suffix suffix s)) [
    | inl n ↦ absurd (ground arith)
    | inr (q, n) ↦ ground (arith, append_of_strip_suffix suffix s q n)
  ]
]
