-- ===== src/Setup/Reset.antt =====
-- Who resets the password can log in with the new one (cmd/manager/setup.go).
use crawlbox.Common.{
  ℕ, suc, ◌+◌, ◌≤◌, ◌==◌, ◌≡◌, refl, ap, subst, ◌∙◌, Bool, true, false, ◌||◌, Option, none, some,
  [], ◌∷◌, Text, eq_text, arith, length, take, length-take, take-all, ltb, if◌then◌else◌,
}
use crawlbox.Common.Result.{Error, Result, ok, err, >>=-eq-ok, passed_test}
use crawlbox.Files.{Writing, atomic_write-ok}
use crawlbox.Web.Access.{Credentials}
use crawlbox.Setup.{
  load_credentials, trim_newline, reset_contents, reset_password, write_result, check,
}

trim-length : (t : Text) → length t ≤ suc (length (trim_newline t))
unfolding trim_newline
trim-length [] = omega arith
trim-length (c ∷ []) = by_byte (c == 10)
  where
    by_byte : (b : Bool) → 1 ≤ suc (length (if b then [] else c ∷ []))
    by_byte true = omega arith
    by_byte false = omega arith
trim-length (c ∷ d ∷ ds) = omega (arith, trim-length (d ∷ ds))

-- A text that is short enough without its last newline was not cut off.
trim-take :
    (n : ℕ) (input : Text)
    → length (trim_newline (take (n + 2) input)) ≤ n
    → take (n + 2) input ≡ input
trim-take n input h =
    take-all (n + 2) input
      (omega (arith, h, trim-length (take (n + 2) input), length-take (n + 2) input))

between : (n : ℕ) → (ltb n 12 || ltb 72 n) ≡ false → (12 ≤ n) × (n ≤ 72)
between n h = (ground arith, ground arith)

module _ (generate : Text → Result Text) (marshal : Credentials → Result Text)
    (unmarshal : Text → Result Credentials) (cost : Text → Option Error)
    (compare : Text → Text → Bool)
    (decodes : (c : Credentials) (bytes : Text) → marshal c ≡ ok bytes → unmarshal bytes ≡ ok c)
    (costs : (password hash : Text) → generate password ≡ ok hash → cost hash ≡ none)
    (fits : (password hash : Text)
      → generate password ≡ ok hash
      → compare hash password ≡ true) where
  loaded-named :
      (file : Option Text) (c : Credentials)
      → load_credentials unmarshal cost file ≡ ok c
      → eq_text c.username [] ≡ false
  unfolding load_credentials
  loaded-named none c h = cc
  loaded-named (some bytes) c h =
      let (d, decoded, h1) = >>=-eq-ok (unmarshal bytes) _ h in
      let (named, h2) = passed_test (eq_text d.username []) _ _ h1 in
      subst (λ (x : Credentials). eq_text x.username [] ≡ false)
        (checked d c (cost d.password_hash) h2) named
    where
      checked : (d c : Credentials) (o : Option Error) → check unmarshal cost o d ≡ ok c → d ≡ c
      checked d c none k = cc
      checked d c (some e) k = cc

  written-ok :
      (io : Writing) (r : Result Text) (file file' : Option Text)
      → write_result generate marshal unmarshal cost io r file ≡ (ok tt, file')
      → (bytes : Text) × (r ≡ ok bytes) × (file' ≡ some bytes)
  written-ok io (err e) file file' h = cc
  written-ok io (ok bytes) file file' h = (bytes, refl, atomic_write-ok io bytes file file' h)

  reloads :
      (old : Credentials) (hash bytes password : Text)
      → eq_text old.username [] ≡ false
      → generate password ≡ ok hash
      → marshal (record old { password_hash = hash }) ≡ ok bytes
      → load_credentials unmarshal cost (some bytes) ≡ ok (record old { password_hash = hash })
  unfolding load_credentials
  reloads old hash bytes password named hashed encoded =
      rw
        (
          decodes (record old { password_hash = hash }) bytes encoded,
          named,
          costs password hash hashed,
        )
        refl

  -- What the new contents are made of.
  abbrev Contents : Text → Option Text → Text → Type 0
  Contents password file bytes =
      (old : Credentials) × (hash : Text) × (load_credentials unmarshal cost file ≡ ok old)
      × ((ltb (length password) 12 || ltb 72 (length password)) ≡ false)
      × (generate password ≡ ok hash)
      × (marshal (record old { password_hash = hash }) ≡ ok bytes)

  reset_contents-parts :
      (input : Text) (file : Option Text) (bytes : Text)
      → reset_contents generate marshal unmarshal cost input file ≡ ok bytes
      → Contents (trim_newline (take 74 input)) file bytes
  unfolding reset_contents
  reset_contents-parts input file bytes h =
      let password = trim_newline (take 74 input) in
      let (old, found, h1) = >>=-eq-ok (load_credentials unmarshal cost file) _ h in
      let (size, h2) = passed_test (ltb (length password) 12 || ltb 72 (length password)) _ _ h1 in
      let (hash, hashed, encoded) = >>=-eq-ok (generate password) _ h2 in
      (old, hash, found, size, hashed, encoded)

  -- If the password is reset, then the new one is the whole input without a newline at its end,
  -- never a part of it, and has 12 to 72 bytes; the file loads again, with the user name that it
  -- had and a hash that the new password fits. This takes that YAML decodes what it has encoded,
  -- and that bcrypt accepts its own hashes.
  pub reset_password-load_credentials :
      (io : Writing) (input : Text) (file file' : Option Text)
      → reset_password generate marshal unmarshal cost io input file ≡ (ok tt, file')
      → (12 ≤ length (trim_newline input))
        × (length (trim_newline input) ≤ 72)
        × ((old : Credentials) × (c : Credentials) × (load_credentials unmarshal cost file ≡ ok old)
            × (load_credentials unmarshal cost file' ≡ ok c)
            × (c.username ≡ old.username)
            × (compare c.password_hash (trim_newline input) ≡ true))
  unfolding reset_password
  reset_password-load_credentials io input file file' h =
      let (bytes, contents, written) =
        written-ok io (reset_contents generate marshal unmarshal cost input file) file file' h in
      let parts = reset_contents-parts input file bytes contents in
      let (_, _, _, size, _, _) = parts in
      let whole : take 74 input ≡ input =
        trim-take 72 input (between (length (trim_newline (take 74 input))) size).1 in
      let (old, hash, found, fine, hashed, encoded) =
        subst (λ t. Contents (trim_newline t) file bytes) whole parts in
      let (long, short) = between (length (trim_newline input)) fine in
      let c : Credentials = record old { password_hash = hash } in
      (
        long,
        short,
        (
          old,
          c,
          found,
          ap (load_credentials unmarshal cost) written
              ∙ reloads old hash bytes (trim_newline input) (loaded-named file old found) hashed
                  encoded,
          refl,
          fits (trim_newline input) hash hashed,
        ),
      )
