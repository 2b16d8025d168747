-- ===== src/Store/Verified.antt =====
-- store.py: a stored hash is verified by the passwords that have its digest.
use Prim.Native.Char.{Char, code}
use Prim.Native.String.{[] as empty_text, ◌∷◌ as char, ◌++◌ as concat}
use Prim.Native.String.append
use api_dashboard.Prelude.{
  String, ◌≡◌, refl, ◌↔◌, inl, inr, true, false, Option, none, some, [], ◌∷◌, ltb, nonempty,
  nonempty-char, Option-cases, ◌==◌, ==_iff, arith, nat_eq, string_eq, sym, ap,
}
use mathlib.Core.Option.{some-injective}
use api_dashboard.Store.Passwords.{
  hex_digit, is_hex, Pbkdf2, split, is_ascii, compare_digest, iterations, hash_password, compared,
  verify_parts, verify_password,
}

-- A hex digit is ASCII, and no dollar.
hex_digit_lem :
    (c : Char) → hex_digit c ≡ true → (ltb (code c) 128 ≡ true) × ((code c == 36) ≡ false)
hex_digit_lem c h = (ground arith, ground arith)

hex_both :
    (c : Char) (t : String) → is_hex (char c t) ≡ true → (hex_digit c ≡ true) × (is_hex t ≡ true)
hex_both c t h = (ground arith, ground arith)

is_ascii-hex : (t : String) → is_hex t ≡ true → is_ascii t ≡ true
is_ascii-hex empty_text h = refl
is_ascii-hex (char c t) h =
    let (d, rest) = hex_both c t h in rw ((hex_digit_lem c d).0, is_ascii-hex t rest)

dollar : (rest : String) → split (concat "$" rest) ≡ "" ∷ split rest
unfolding split
dollar rest = rw (append.cons "$" "" rest, append.nil rest)

scheme : (rest : String) → split (concat "pbkdf2$" rest) ≡ "pbkdf2" ∷ split rest
unfolding split
scheme rest = rw (
  append.cons "p" "bkdf2$" rest,
  append.cons "b" "kdf2$" rest,
  append.cons "k" "df2$" rest,
  append.cons "d" "f2$" rest,
  append.cons "f" "2$" rest,
  append.cons "2" "$" rest,
  append.cons "$" "" rest,
  append.nil rest,
)

-- The part before a dollar, where it is hex.
split-concat :
    (t rest : String) → is_hex t ≡ true → split (concat t (concat "$" rest)) ≡ t ∷ split rest
unfolding split
split-concat empty_text rest h = rw (append.nil (concat "$" rest), dollar rest)
split-concat (char c t) rest h =
    let (d, more) = hex_both c t h in
    rw (append.cons, split-concat t rest more, (hex_digit_lem c d).1)

split-hex : (t : String) → is_hex t ≡ true → split t ≡ t ∷ []
unfolding split
split-hex empty_text h = refl
split-hex (char c t) h =
    let (d, more) = hex_both c t h in rw (split-hex t more, (hex_digit_lem c d).1)

module _ (pbkdf2 : Pbkdf2) (salt : String) (hex : is_hex salt ≡ true) where
  abbrev stored_hash : String → String
  stored_hash digest =
      concat "pbkdf2$"
        (concat (pbkdf2.str iterations) (concat "$" (concat salt (concat "$" digest))))

  -- A stored hash has four parts.
  split-stored :
      (digest : String)
      → is_hex digest ≡ true
      → split (stored_hash digest) ≡ "pbkdf2" ∷ pbkdf2.str iterations ∷ salt ∷ digest ∷ []
  split-stored digest h = rw (
    scheme,
    split-concat (pbkdf2.str iterations) (concat salt (concat "$" digest)) pbkdf2.is_hex-str,
    split-concat salt digest hex,
    split-hex digest h,
  )

  stored-nonempty : (digest : String) → nonempty (stored_hash digest) ≡ true
  stored-nonempty digest = rw (append.cons "p" "bkdf2$") (nonempty-char "p" _)

  verify_password-stored :
      (digest other : String)
      → is_hex digest ≡ true
      → verify_password pbkdf2 (some (stored_hash digest)) other
        ≡ compared (pbkdf2.derive other salt iterations) digest
  unfolding verify_password verify_parts
  verify_password-stored digest other h =
      rw (stored-nonempty digest, split-stored digest h, pbkdf2.int-str)

  compared-hex :
      (o : Option String) (digest : String)
      → ((d : String) → o ≡ some d → is_hex d ≡ true)
      → is_hex digest ≡ true
      → (compared o digest ≡ some true) ↔ (o ≡ some digest)
  unfolding compare_digest
  compared-hex none digest h k = (λ e. cc, λ e. cc)
  compared-hex (some d) digest h k =
      rw (is_ascii-hex d (h d refl), is_ascii-hex digest k)
        (
          λ e. ap some ((==_iff d digest).0 (some-injective _ _ e)),
          λ e. ap some ((==_iff d digest).1 (some-injective _ _ e)),
        )

  -- What hash_password stores for a password, under a salt of hex digits, is verified by that
  -- password, and by another exactly if its derivation under the salt is the same.
  pub verify_password-hash_password :
      (password other stored : String)
      → hash_password pbkdf2 salt password ≡ some stored
      → (verify_password pbkdf2 (some stored) password ≡ some true)
        × ((verify_password pbkdf2 (some stored) other ≡ some true)
            ↔ (pbkdf2.derive other salt iterations ≡ pbkdf2.derive password salt iterations))
  unfolding hash_password
  verify_password-hash_password password other stored e =
      elim (Option-cases (pbkdf2.derive password salt iterations)) [
        | inl failed ↦ let e' = rw (hash_password, failed) at e in cc
        | inr (digest, found) ↦
            let same : stored_hash digest ≡ stored =
              some-injective _ _ (rw (hash_password, found) at e) in
            let hex_found = pbkdf2.is_hex-derive password salt iterations digest found in
            let check : (t : String)
                → (verify_password pbkdf2 (some stored) t ≡ some true)
                  ↔ (pbkdf2.derive t salt iterations ≡ some digest) =
              λ t.
                rw (sym same, verify_password-stored digest t hex_found)
                  (compared-hex (pbkdf2.derive t salt iterations) digest
                    (λ d k. pbkdf2.is_hex-derive t salt iterations d k) hex_found) in
            ((check password).1 found, rw found (check other))
      ]
