-- ===== src/Store/Passwords.antt =====
-- store.py: hash_password and verify_password. PBKDF2 is a parameter.
use Prim.Native.Char.{Char, code}
use Prim.Native.String.{[] as empty_text, ◌∷◌ as char, ◌++◌ as concat}
use api_dashboard.Prelude.{
  ℕ, String, ◌≡◌, Bool, true, false, ◌&&◌, ◌||◌, Option, none, some, List, [], ◌∷◌, ltb, nonempty,
  ◌==◌, nat_eq, string_eq, if◌then◌else◌,
}

-- bytes.hex() writes these digits.
abbrev pub hex_digit : Char → Bool
hex_digit c = (ltb 47 (code c) && ltb (code c) 58) || (ltb 96 (code c) && ltb (code c) 103)

abbrev pub is_hex : String → Bool
is_hex empty_text = true
is_hex (char c t) = hex_digit c && is_hex t

abbrev pub iterations : ℕ
iterations = 200000

-- hashlib.pbkdf2_hmac("sha256", password.encode(), bytes.fromhex(salt), iterations).hex(), none
-- where it raises ValueError or TypeError; int(t), none where it raises; and str(n).
pub record Pbkdf2 : Type 0 where
  pub derive : String → String → ℕ → Option String
  pub int : String → Option ℕ
  pub str : ℕ → String
  pub is_hex-derive :
      (password salt : String) (n : ℕ) (digest : String)
      → derive password salt n ≡ some digest
      → is_hex digest ≡ true
  pub is_hex-str : is_hex (str iterations) ≡ true
  pub int-str : int (str iterations) ≡ some iterations

-- text.split("$")
abbrev extend : Char → List String → List String
extend c [] = char c empty_text ∷ []
extend c (part ∷ parts) = char c part ∷ parts

unfoldable pub split : String → List String
split empty_text = empty_text ∷ []
split (char c t) = if code c == 36 then empty_text ∷ split t else extend c (split t)

abbrev pub is_ascii : String → Bool
is_ascii empty_text = true
is_ascii (char c t) = ltb (code c) 128 && is_ascii t

-- hmac.compare_digest on two texts, which raises TypeError where one of them is not ASCII.
unfoldable pub compare_digest : String → String → Option Bool
compare_digest a b = if is_ascii a && is_ascii b then some (a == b) else none

abbrev pub compared : Option String → String → Option Bool
compared none hash = some false
compared (some digest) hash = compare_digest digest hash

module _ (pbkdf2 : Pbkdf2) where
  -- `salt` is the hex text of the bytes that were drawn; none where the derivation raises.
  unfoldable pub hash_password : String → String → Option String
  hash_password salt password = elim (pbkdf2.derive password salt iterations) [
    | none ↦ none
    | some digest ↦ some (
        concat "pbkdf2$"
          (concat (pbkdf2.str iterations) (concat "$" (concat salt (concat "$" digest)))))
  ]

  abbrev pub derived : String → String → Option ℕ → Option String
  derived password salt none = none
  derived password salt (some n) = pbkdf2.derive password salt n

  -- The parts of a stored hash against a password.
  unfoldable pub verify_parts : List String → String → Option Bool
  verify_parts (scheme ∷ iters ∷ salt ∷ hash ∷ []) password =
      if scheme == "pbkdf2"
      then compared (derived password salt (pbkdf2.int iters)) hash
      else some false
  verify_parts parts password = some false

  -- none where an exception leaves it.
  unfoldable pub verify_password : Option String → String → Option Bool
  unfolding split verify_parts compare_digest
  verify_password none password = some false
  verify_password (some stored) password =
      if nonempty stored then verify_parts (split stored) password else some false
