-- ===== src/Gateway/Query/Sorted.antt =====
-- Lists in a strict order, sorted by insertion.
use wrany.Prelude.{
  ◌≡◌, refl, Bool, true, false, ◌&&◌, ◌||◌, String, List, [], ◌∷◌, ◌++◌, map, All, keep, insert_by,
  sort_by, str_lt, if◌then◌else◌, if-elim, arith,
}

pub str_lt-asym : (s t : String) → str_lt s t ≡ true → str_lt t s ≡ false
str_lt-asym s String.[] h = ground arith
str_lt-asym String.[] (String.◌∷◌ d t) h = refl
str_lt-asym (String.◌∷◌ c s) (String.◌∷◌ d t) h = ground (arith, str_lt-asym s t)

-- A text that is not behind one that follows `s` follows `s` too.
pub str_lt-cotrans : (s t u : String) → str_lt s t ≡ true → str_lt u t ≡ false → str_lt s u ≡ true
str_lt-cotrans s String.[] u h k = ground arith
str_lt-cotrans s (String.◌∷◌ d t) String.[] h k = ground arith
str_lt-cotrans String.[] (String.◌∷◌ d t) (String.◌∷◌ e u) h k = refl
str_lt-cotrans (String.◌∷◌ c s) (String.◌∷◌ d t) (String.◌∷◌ e u) h k =
    ground (arith, str_lt-cotrans s t u)

module _ {A : Type 0} where
  pub keep-keep :
      (p q : A → Bool) (xs : List A)
      → keep (λ x. p x && q x) xs ≡ keep q (keep (λ x. p x && true) xs)
  keep-keep p q [] = refl
  keep-keep p q (x ∷ xs) = ground (arith, keep-keep p q xs)

  pub keep_and_true : (p : A → Bool) (xs : List A) → keep (λ x. p x && true) xs ≡ keep p xs
  keep_and_true p [] = refl
  keep_and_true p (x ∷ xs) = ground (arith, keep_and_true p xs)

  pub keep-All :
      (P : A → Type 0) (p : A → Bool) (xs : List A)
      → ((x : A) → p x ≡ true → P x)
      → All P (keep p xs)
  keep-All P p [] step = tt
  keep-All P p (x ∷ xs) step =
      if-elim (All P) (p x) _ _ (λ h. (step x h, keep-All P p xs step)) (λ _. keep-All P p xs step)

  pub map-All :
      {B : Type 0} (f : A → B) (P : B → Type 0) (xs : List A)
      → All (λ x. P (f x)) xs
      → All P (map f xs)
  map-All f P [] h = tt
  map-All f P (x ∷ xs) (h, hs) = (h, map-All f P xs hs)

  pub keep-map :
      {B : Type 0} (f : A → B) (p : B → Bool) (xs : List A)
      → map f (keep (λ x. p (f x)) xs) ≡ keep p (map f xs)
  keep-map f p [] = refl
  keep-map f p (x ∷ xs) = ground (arith, keep-map f p xs)

module _ {A : Type 0} (before : A → A → Bool) where
  -- A test that holds of all that is not before what it holds of.
  abbrev pub IsUpward : (A → Bool) → Type 0
  IsUpward p = (x y : A) → before y x ≡ false → p x ≡ true → p y ≡ true

  keep-insert_by :
      (p : A → Bool) (upward : IsUpward p) (x : A) (ys : List A)
      → keep p (insert_by before x ys) ≡ (if p x then insert_by before x (keep p ys) else keep p ys)
  unfolding insert_by
  keep-insert_by p upward x [] = refl
  keep-insert_by p upward x (y ∷ ys) = ground (arith, keep-insert_by p upward x ys, upward x y)

  -- Such rows can be kept before or after the sort.
  pub keep-sort_by :
      (p : A → Bool) (upward : IsUpward p) (xs : List A)
      → keep p (sort_by before xs) ≡ sort_by before (keep p xs)
  unfolding sort_by
  keep-sort_by p upward [] = refl
  keep-sort_by p upward (x ∷ xs) =
      ground (arith, keep-insert_by p upward x (sort_by before xs), keep-sort_by p upward xs)

  pub insert_by-All :
      (P : A → Type 0) (x : A) (ys : List A) → P x → All P ys → All P (insert_by before x ys)
  unfolding insert_by
  insert_by-All P x [] h hs = (h, tt)
  insert_by-All P x (y ∷ ys) h (k, ks) =
      if-elim (All P) (before y x) _ _ (λ _. (k, insert_by-All P x ys h ks)) (λ _. (h, (k, ks)))

  pub sort_by-All : (P : A → Type 0) (xs : List A) → All P xs → All P (sort_by before xs)
  unfolding sort_by
  sort_by-All P [] h = tt
  sort_by-All P (x ∷ xs) (h, hs) = insert_by-All P x (sort_by before xs) h (sort_by-All P xs hs)

  -- Of every two, one is before the other.
  abbrev pub AreApart : List A → Type 0
  AreApart [] = Unit
  AreApart (x ∷ xs) = All (λ y. before x y || before y x ≡ true) xs × AreApart xs

  abbrev pub IsStrict : List A → Type 0
  IsStrict [] = Unit
  IsStrict (x ∷ xs) = All (λ y. before x y ≡ true) xs × IsStrict xs

-- A strict order in which two elements are apart or as good as equal.
pub record IsOrder {A : Type 0} (before : A → A → Bool) : Type 0 where
  pub asym : (x y : A) → before x y ≡ true → before y x ≡ false
  pub cotrans : (x y z : A) → before x y ≡ true → before z y ≡ false → before x z ≡ true

module _ {A : Type 0} (before : A → A → Bool) (order : IsOrder before) where
  All-before :
      (x y : A) (zs : List A)
      → before x y ≡ true
      → All (λ z. before y z ≡ true) zs
      → All (λ z. before x z ≡ true) zs
  All-before x y [] h hs = tt
  All-before x y (z ∷ zs) h (k, ks) =
      (order.cotrans x y z h (order.asym y z k), All-before x y zs h ks)

  insert_by-IsStrict :
      (x : A) (ys : List A)
      → All (λ y. before x y || before y x ≡ true) ys
      → IsStrict before ys
      → IsStrict before (insert_by before x ys)
  unfolding insert_by
  insert_by-IsStrict x [] h k = (tt, tt)
  insert_by-IsStrict x (y ∷ ys) (h, hs) (k, ks) =
      if-elim (IsStrict before) (before y x) _ _
        (λ e.
          (insert_by-All before (λ z. before y z ≡ true) x ys e k, insert_by-IsStrict x ys hs ks))
        λ e. let e' : before x y ≡ true = ground arith in ((e', All-before x y ys e' k), (k, ks))

  pub sort_by-IsStrict : (xs : List A) → AreApart before xs → IsStrict before (sort_by before xs)
  unfolding sort_by
  sort_by-IsStrict [] h = tt
  sort_by-IsStrict (x ∷ xs) (h, hs) =
      insert_by-IsStrict x (sort_by before xs)
        (sort_by-All before (λ z. before x z || before z x ≡ true) xs h) (sort_by-IsStrict xs hs)

  keep_all : (p : A → Bool) (ys : List A) → All (λ y. p y ≡ true) ys → keep p ys ≡ ys
  keep_all p [] h = refl
  keep_all p (y ∷ ys) (h, hs) = ground (arith, keep_all p ys hs)

  irreflexive : (x : A) → before x x ≡ false
  irreflexive x = ground (arith, order.asym x x)

  first_before :
      (x l : A) (xs ys : List A) → All (λ y. before x y ≡ true) (xs ++ l ∷ ys) → before x l ≡ true
  first_before x l [] ys (h, hs) = h
  first_before x l (y ∷ xs) ys (h, hs) = first_before x l xs ys hs

  -- What is behind an element of a strict list is the rest of it.
  pub keep_behind :
      (xs : List A) (l : A) (ys : List A)
      → IsStrict before (xs ++ l ∷ ys)
      → keep (before l) (xs ++ l ∷ ys) ≡ ys
  keep_behind [] l ys (h, hs) = rw (irreflexive l) (keep_all (before l) ys h)
  keep_behind (x ∷ xs) l ys (h, hs) =
      rw (order.asym x l (first_before x l xs ys h)) (keep_behind xs l ys hs)
