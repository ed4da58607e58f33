-- ===== src/Store/Keys.antt =====
-- Keys of rows and the test that a row with a key exists, for the tables of both services.
use wrany.Prelude.{
  ◌≡◌, refl, sym, ◌∙◌, Bool, true, String, List, [], ◌∷◌, ◌++◌, str_eq, if-elim, arith, eq_iff,
}
use wrany.Store.Tables.{EventKey, same_key, any, insert_new}

pub str_eq_trans : (s t u : String) → str_eq s t ≡ true → str_eq t u ≡ true → str_eq s u ≡ true
str_eq_trans s t u h k = (eq_iff s u).1 ((eq_iff s t).0 h ∙ (eq_iff t u).0 k)

pub str_eq_comm : (s t : String) → str_eq s t ≡ true → str_eq t s ≡ true
str_eq_comm s t h = (eq_iff t s).1 (sym ((eq_iff s t).0 h))

pub same_key_trans :
    (a b c : EventKey) → same_key a b ≡ true → same_key b c ≡ true → same_key a c ≡ true
same_key_trans a b c h k = ground (arith, str_eq_trans a.event_id b.event_id c.event_id)

pub same_key_comm : (a b : EventKey) → same_key a b ≡ true → same_key b a ≡ true
same_key_comm a b h = ground (arith, str_eq_comm a.event_id b.event_id)

module _ {A : Type 0} where
  pub any-append-right :
      (p : A → Bool) (xs : List A) (y : A) → p y ≡ true → any p (xs ++ y ∷ []) ≡ true
  any-append-right p [] y h = ground arith
  any-append-right p (x ∷ xs) y h = ground (arith, any-append-right p xs y h)

  pub any-append-left : (p : A → Bool) (xs ys : List A) → any p xs ≡ true → any p (xs ++ ys) ≡ true
  any-append-left p [] ys h = ground arith
  any-append-left p (x ∷ xs) ys h = ground (arith, any-append-left p xs ys)

  pub any-implies :
      (p q : A → Bool) (xs : List A)
      → ((x : A) → p x ≡ true → q x ≡ true)
      → any p xs ≡ true
      → any q xs ≡ true
  any-implies p q [] f h = h
  any-implies p q (x ∷ xs) f h = ground (arith, f x, any-implies p q xs f)

module _ {A : Type 0} where
  pub insert_new-keeps :
      (same : A → A → Bool) (p : A → Bool) (row : A) (rows : List A)
      → any p rows ≡ true
      → any p (insert_new same row rows) ≡ true
  unfolding insert_new
  insert_new-keeps same p row rows h =
      if-elim (λ r. any p r ≡ true) (any (same row) rows) rows (rows ++ row ∷ []) (λ _. h)
        (λ _. any-append-left p rows (row ∷ []) h)

  pub insert_new-has :
      (same : A → A → Bool) (row : A) (rows : List A)
      → same row row ≡ true
      → any (same row) (insert_new same row rows) ≡ true
  unfolding insert_new
  insert_new-has same row rows h =
      if-elim (λ r. any (same row) r ≡ true) (any (same row) rows) rows (rows ++ row ∷ []) (λ e. e)
        (λ _. any-append-right (same row) rows row h)

pub same_key_refl : (k : EventKey) → same_key k k ≡ true
same_key_refl k = let e = (eq_iff k.event_id k.event_id).1 refl in ground arith

module _ {A : Type 0} where
  pub insert_new_there :
      (same : A → A → Bool) (row : A) (rows : List A)
      → any (same row) rows ≡ true
      → insert_new same row rows ≡ rows
  unfolding insert_new
  insert_new_there same row rows h = ground arith

  -- A row that is there is not inserted again.
  pub insert_new_twice :
      (same : A → A → Bool) (row : A) (rows : List A)
      → same row row ≡ true
      → insert_new same row (insert_new same row rows) ≡ insert_new same row rows
  insert_new_twice same row rows h = insert_new_there same row _ (insert_new-has same row rows h)
