-- ===== src/Gateway/Query/Cut.antt =====
-- Where a list is cut: the pages of `GetPoints`,
-- services/tracking-gateway/internal/storage/postgres/tracking_query_repo.go.
use wrany.Prelude.{
  ℕ, zero, suc, ◌<◌, ◌≤◌, ◌≡◌, refl, ap, some, List, [], ◌∷◌, ◌++◌, length, take, last?, ltb, arith,
}

module _ {A : Type 0} where
  pub take_whole : (n : ℕ) (xs : List A) → length xs ≤ n → take n xs ≡ xs
  take_whole zero [] h = refl
  take_whole zero (x ∷ xs) h = ground arith
  take_whole (suc n) [] h = refl
  take_whole (suc n) (x ∷ xs) h = ap (λ r. x ∷ r) (take_whole n xs (omega (arith, h)))

  pub take-take : (n : ℕ) (xs : List A) → take n (take (suc n) xs) ≡ take n xs
  take-take zero xs = refl
  take-take (suc n) [] = refl
  take-take (suc n) (x ∷ xs) = ap (λ r. x ∷ r) (take-take n xs)

  pub length-take_more :
      (n : ℕ) (xs : List A) → ltb n (length (take (suc n) xs)) ≡ ltb n (length xs)
  length-take_more zero [] = refl
  length-take_more zero (x ∷ xs) = ground arith
  length-take_more (suc n) [] = refl
  length-take_more (suc n) (x ∷ xs) = ground (arith, length-take_more n xs)

  pub last?-append : (xs : List A) (l : A) → last? (xs ++ l ∷ []) ≡ some l
  last?-append [] l = refl
  last?-append (x ∷ []) l = refl
  last?-append (x ∷ y ∷ xs) l = last?-append (y ∷ xs) l

  -- A list that is longer than a page: the page up to its last element, and the rest.
  pub record Cut (n : ℕ) (all : List A) : Type 0 where
    pub front : List A
    pub final : A
    pub rest : List A
    pub whole : all ≡ front ++ final ∷ rest
    pub page : take (suc n) all ≡ front ++ final ∷ []
    pub shorter : length rest < length all

  pub Cut-at : (n : ℕ) (all : List A) → n < length all → Cut n all
  Cut-at n [] h = ground arith
  Cut-at zero (x ∷ xs) h = record {
    front = [];
    final = x;
    rest = xs;
    whole = refl;
    page = refl;
    shorter = omega arith;
  }
  Cut-at (suc n) (x ∷ xs) h =
      let c = Cut-at n xs (omega (arith, h)) in
      record {
        front = x ∷ c.front;
        final = c.final;
        rest = c.rest;
        whole = ap (λ r. x ∷ r) c.whole;
        page = ap (λ r. x ∷ r) c.page;
        shorter = omega (arith, c.shorter);
      }
