-- ===== src/Prelude/Texts.antt =====
-- A text that ends in one that is not empty is not empty.
use Prim.Native.Char.{Char}
use Prim.Native.String.{String, ◌∷◌ as char, ◌++◌ as concat}
use Prim.Native.String.append
use mathlib.Core.Path.{◌≡◌, refl}
use mathlib.Core.Logic.{inl, inr}
use mathlib.Core.Bool.{true}
use api_dashboard.Prelude.Tests.{◌==◌, ==_iff, string_eq, nonempty, Bool-cases}

pub nonempty-char : (c : Char) (t : String) → nonempty (char c t) ≡ true
nonempty-char c t = elim (Bool-cases (char c t == "")) [
  | inl e ↦ let same = (==_iff (char c t) "").0 e in cc
  | inr e ↦ rw e refl
]

pub nonempty-concat : (a b : String) → nonempty b ≡ true → nonempty (concat a b) ≡ true
nonempty-concat String.[] b h = rw append.nil h
nonempty-concat (String.◌∷◌ c a) b h = rw append.cons (nonempty-char c (concat a b))
