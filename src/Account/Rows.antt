-- ===== src/Account/Rows.antt =====
-- Rows found in a table that grows or is updated:
-- services/tracking-gateway/internal/storage/postgres.
use wrany.Prelude.{
  none, false, inl, inr, ◌∙◌, ◌≡◌, ap, Bool, true, some, List, [], ◌∷◌, ◌++◌, Yields, Bool-cases,
  arith,
}
use wrany.Store.Tables.{any, find?, update_where}

module _ {A : Type 0} where
  pub find?-append :
      (P : A → Type 0) (p : A → Bool) (xs : List A) (y : A)
      → Yields P (find? p xs)
      → Yields P (find? p (xs ++ y ∷ []))
  find?-append P p [] y h = absurd h
  find?-append P p (x ∷ xs) y h = elim (Bool-cases (p x)) [
    | inl e ↦ rw e (rw e at h)
    | inr e ↦ rw e (find?-append P p xs y (rw e at h))
  ]

  -- An update that leaves the tested columns alone, and sets what is asked for.
  pub find?-update_where :
      (P : A → Type 0) (p q : A → Bool) (turn : A → A) (xs : List A)
      → ((x : A) → p (turn x) ≡ p x)
      → ((x : A) → P (turn x))
      → Yields P (find? p xs)
      → Yields P (find? p (update_where q turn xs))
  unfolding update_where
  find?-update_where P p q turn [] same sets h = absurd h
  find?-update_where P p q turn (x ∷ xs) same sets h = elim (Bool-cases (q x)) [
    | inl c ↦ elim (Bool-cases (p x)) [
      | inl e ↦ rw (c, same x, e) (sets x)
      | inr e ↦ rw (c, same x, e) (find?-update_where P p q turn xs same sets (rw e at h))
    ]
    | inr c ↦ elim (Bool-cases (p x)) [
      | inl e ↦ rw (c, e) (rw e at h)
      | inr e ↦ rw (c, e) (find?-update_where P p q turn xs same sets (rw e at h))
    ]
  ]

  -- The row that was found is among those that are changed.
  pub find?-changed :
      (P : A → Type 0) (p q : A → Bool) (turn : A → A) (xs : List A) (found : A)
      → ((x : A) → p (turn x) ≡ p x)
      → ((x : A) → P (turn x))
      → find? p xs ≡ some found
      → q found ≡ true
      → Yields P (find? p (update_where q turn xs))
  unfolding update_where
  find?-changed P p q turn [] found same sets e_found hit = cc
  find?-changed P p q turn (x ∷ xs) found same sets e_found hit = elim (Bool-cases (p x)) [
    | inl e ↦ let is_x : x ≡ found = ground arith in rw (ap q is_x ∙ hit, same x, e) (sets x)
    | inr e ↦ elim (Bool-cases (q x)) [
      | inl c ↦
          rw (c, same x, e) (find?-changed P p q turn xs found same sets (rw e at e_found) hit)
      | inr c ↦ rw (c, e) (find?-changed P p q turn xs found same sets (rw e at e_found) hit)
    ]
  ]

  pub find?-append_new :
      (p : A → Bool) (xs : List A) (y : A)
      → any p xs ≡ false
      → p y ≡ true
      → (find? p xs ≡ none) × (find? p (xs ++ y ∷ []) ≡ some y)
  find?-append_new p [] y h e = ground arith
  find?-append_new p (x ∷ xs) y h e = ground (arith, find?-append_new p xs y)
