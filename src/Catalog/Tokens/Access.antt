-- ===== src/Catalog/Tokens/Access.antt =====
-- Who a token lets in, from its creation to its revocation.
use crawlbox.Common.{
  ℕ, ◌≡◌, refl, true, false, Option, some, List, [], ◌∷◌, ◌++◌, Text, arith, eq_text_refl,
  eq_text_iff, lookup, lookup-insert, has, Option-cases, inl, inr, insert, length,
}
use crawlbox.Common.Splitting.{split, split_pair, has_byte}
use crawlbox.Common.Result.{ok, err, new}
use crawlbox.Catalog.Db.{Db, Token, TokenRow, Faults}
use crawlbox.Catalog.Tokens.{is_expired, named, create_token, check_parts, authenticate, revoke}

module _ (sha256 : Text → Text) where
  -- What a successful `CreateToken` has done.
  pub created :
      (fault : Faults) (id secret : Text) (now : ℕ) (name : Text) (sources : List Text)
      (expires : Option ℕ) (db : Db) (t : Token) (value : Text) (db' : Db)
      → create_token sha256 fault id secret now name sources expires db ≡ ok (t, value, db')
      → (t ≡ named id name sources now expires)
        × (value ≡ id ++ b'.' ∷ secret)
        × (db'.tokens ≡ (id, record { digest = sha256 secret; body = t }) ∷ db.tokens)
        × (is_expired expires now ≡ false)
        × (has id db.tokens ≡ false)
  unfolding create_token
  created fault id secret now name sources expires db t value db' h = ground arith

  -- The value that `CreateToken` returned, with 32 bytes of identifier and 64 of secret and no dot
  -- in either, lets the token in until it expires, in the database that it left and while the
  -- database works.
  pub create_token-authenticate :
      (fault : Faults) (id secret : Text) (now : ℕ) (name : Text) (sources : List Text)
      (expires : Option ℕ) (db : Db) (t : Token) (value : Text) (db' : Db) (later : ℕ)
      → (length id ≡ 32)
      → (length secret ≡ 64)
      → has_byte b'.' id ≡ false
      → has_byte b'.' secret ≡ false
      → create_token sha256 fault id secret now name sources expires db ≡ ok (t, value, db')
      → is_expired expires later ≡ false
      → authenticate sha256 (λ n. false) later value db' ≡ ok t
  unfolding authenticate lookup
  create_token-authenticate fault id secret now name sources expires db t value db' later li ls di
        ds h live =
      let (same, whole, rows, _, _) =
        created fault id secret now name sources expires db t value db' h in
      rw
        (
          whole,
          split_pair b'.' id secret di ds,
          li,
          ls,
          rows,
          eq_text_refl id,
          eq_text_refl (sha256 secret),
        )
        (ground arith)

  -- A token that is let in has a row under the first part of the value, whose digest is that of
  -- the second part; it is not revoked and not expired.
  pub authenticate_sound :
      (fault : Faults) (now : ℕ) (value : Text) (db : Db) (t : Token)
      → authenticate sha256 fault now value db ≡ ok t
      → (id : Text) × (secret : Text) × (row : TokenRow) × (split b'.' value ≡ id ∷ secret ∷ [])
        × (lookup id db.tokens ≡ some row)
        × (row.digest ≡ sha256 secret)
        × (row.body ≡ t)
        × (t.revoked ≡ false)
        × (is_expired t.expires now ≡ false)
  unfolding authenticate
  authenticate_sound fault now value db t h = go (split b'.' value) refl h
    where
      go :
          (ps : List Text)
          → split b'.' value ≡ ps
          → check_parts sha256 (fault 0) now ps db ≡ ok t
          → (id : Text) × (secret : Text) × (row : TokenRow) × (split b'.' value ≡ id ∷ secret ∷ [])
            × (lookup id db.tokens ≡ some row)
            × (row.digest ≡ sha256 secret)
            × (row.body ≡ t)
            × (t.revoked ≡ false)
            × (is_expired t.expires now ≡ false)
      go [] e k = cc
      go (id ∷ []) e k = cc
      go (id ∷ secret ∷ x ∷ xs) e k = cc
      go (id ∷ secret ∷ []) e k = elim (Option-cases (lookup id db.tokens)) [
        | inl absent ↦ ground arith
        | inr (row, found) ↦ (
          id,
          secret,
          row,
          e,
          found,
          ground (arith, eq_text_iff row.digest (sha256 secret)),
          ground arith,
          ground arith,
          ground arith,
        )
      ]

  -- Once a token is revoked, no value whose two parts start with its identifier is let in by the
  -- database that was left.
  pub revoke-authenticate :
      (fault other : Faults) (id : Text) (db db' : Db) (now : ℕ) (secret value : Text)
      → revoke fault id db ≡ ok db'
      → split b'.' value ≡ id ∷ secret ∷ []
      → authenticate sha256 other now value db' ≡ err (new "unauthorized")
  unfolding revoke authenticate
  revoke-authenticate fault other id db db' now secret value h parts =
      elim (Option-cases (lookup id db.tokens)) [
        | inl absent ↦ ground arith
        | inr (row, found) ↦
            let revoked : TokenRow = record row { body = record row.body { revoked = true } } in
            let rows : db'.tokens ≡ insert id revoked db.tokens = ground arith in
            let now_there : lookup id db'.tokens ≡ some revoked =
              rw (rows, lookup-insert id id revoked db.tokens, eq_text_refl id) in
            rw (parts, now_there) (ground arith)
      ]
