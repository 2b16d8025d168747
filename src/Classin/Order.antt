-- ===== src/Classin/Order.antt =====
-- The order of texts by code points is a total order, and a list in order is given by its items.
use Prim.Native.Nat.compare as compare_ℕ
use Prim.Native.Nat.{Ordering, compare as compare_ℕ, ◌<◌}
use Prim.Native.Char.{Char, code}
use Prim.Native.String.compare
use Prim.Native.String.{◌∷◌ as char, compare, then as chained}
use text.Mathlib.TextEquality.{codes_equal}
use api_dashboard.Prelude.{
  ℕ, zero, suc, String, ◌≡◌, refl, sym, ap, subst, ◌∙◌, ◌⊎◌, inl, inr, Bool, true, false, ltb,
  text_leb, if◌then◌else◌, arith,
}

-- How two numbers compare.
abbrev Compared : ℕ → ℕ → Ordering → Type 0
Compared m n Ordering.lt = m < n
Compared m n Ordering.eq = m ≡ n
Compared m n Ordering.gt = n < m

compared_suc : (m n : ℕ) (o : Ordering) → Compared m n o → Compared (suc m) (suc n) o
compared_suc m n Ordering.lt h = omega arith
compared_suc m n Ordering.eq h = omega arith
compared_suc m n Ordering.gt h = omega arith

compared : (m n : ℕ) → Compared m n (compare_ℕ m n)
compared zero zero = subst (Compared zero zero) (sym compare_ℕ.zero-zero) refl
compared zero (suc n) = subst (Compared zero (suc n)) (sym (compare_ℕ.zero-suc n)) (omega arith)
compared (suc m) zero = subst (Compared (suc m) zero) (sym (compare_ℕ.suc-zero m)) (omega arith)
compared (suc m) (suc n) =
    subst (Compared (suc m) (suc n)) (sym (compare_ℕ.suc-suc m n))
      (compared_suc m n (compare_ℕ m n) (compared m n))

-- `s <= t`, of how they compare.
abbrev at_most : Ordering → Bool
at_most o = elim o [ Ordering.gt ↦ false | _ ↦ true ]

at_most-then :
    (m n : ℕ) (o p : Ordering)
    → Compared m n o
    → at_most (chained o p) ≡ (if ltb m n then true else if ltb n m then false else at_most p)
at_most-then m n Ordering.lt p h = ground arith
at_most-then m n Ordering.eq p h = ground arith
at_most-then m n Ordering.gt p h = ground arith

text_leb-char :
    (c d : Char) (s t : String)
    → text_leb (char c s) (char d t) ≡ (
        if ltb (code c) (code d)
        then true
        else if ltb (code d) (code c)
        then false
        else text_leb s t)
unfolding text_leb
text_leb-char c d s t =
    ap at_most (compare.cons-cons c d s t)
    ∙ at_most-then (code c) (code d) _ (compare s t) (compared (code c) (code d))

text_leb-nil : (t : String) → text_leb "" t ≡ true
unfolding text_leb
text_leb-nil String.[] = ap at_most compare.nil-nil
text_leb-nil (char c t) = ap at_most (compare.nil-cons c t)

text_leb-char_nil : (c : Char) (s : String) → text_leb (char c s) "" ≡ false
unfolding text_leb
text_leb-char_nil c s = ap at_most (compare.cons-nil c s)

too_far : (m n : ℕ) → m < n → ¬ (m ≡ n)
too_far m n h e = omega arith

same_code : (c d : Char) → code c ≡ code d → c ≡ d
same_code c d e =
    codes_equal c d
      (same_compared (code c) (code d) (compare_ℕ (code c) (code d)) (compared (code c) (code d)) e)
  where
    same_compared : (m n : ℕ) (o : Ordering) → Compared m n o → m ≡ n → o ≡ Ordering.eq
    same_compared m n Ordering.lt h e = absurd (too_far m n h e)
    same_compared m n Ordering.eq h e = refl
    same_compared m n Ordering.gt h e = absurd (too_far n m h (sym e))

pub text_leb_total : (s t : String) → (text_leb s t ≡ true) ⊎ (text_leb t s ≡ true)
text_leb_total String.[] t = inl (text_leb-nil t)
text_leb_total (char c s) String.[] = inr (text_leb-nil (char c s))
text_leb_total (char c s) (char d t) =
    ground (arith, text_leb-char c d s t, text_leb-char d c t s, text_leb_total s t)

pub text_leb_antisym : (s t : String) → text_leb s t ≡ true → text_leb t s ≡ true → s ≡ t
text_leb_antisym String.[] String.[] a b = refl
text_leb_antisym String.[] (char d t) a b = ground (arith, text_leb-char_nil d t)
text_leb_antisym (char c s) String.[] a b = ground (arith, text_leb-char_nil c s)
text_leb_antisym (char c s) (char d t) a b =
    let ab : (code c ≡ code d) × (text_leb s t ≡ true) × (text_leb t s ≡ true) =
      ground (arith, text_leb-char c d s t, text_leb-char d c t s) in
    λ i. char (same_code c d ab.0 i) (text_leb_antisym s t ab.1 ab.2 i)

pub text_leb_trans :
    (s t u : String) → text_leb s t ≡ true → text_leb t u ≡ true → text_leb s u ≡ true
text_leb_trans String.[] t u a b = text_leb-nil u
text_leb_trans (char c s) String.[] u a b = ground (arith, text_leb-char_nil c s)
text_leb_trans (char c s) (char d t) String.[] a b = ground (arith, text_leb-char_nil d t)
text_leb_trans (char c s) (char d t) (char f u) a b = ground (
  arith,
  text_leb-char c d s t,
  text_leb-char d f t u,
  text_leb-char c f s u,
  text_leb_trans s t u,
)
