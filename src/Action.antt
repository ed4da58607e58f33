-- ===== src/Action.antt =====
-- Calls that may fail and that change a state also when they fail: a Go function `(T, error)` with
-- its effects. Rules for what a call ensures.
use mathlib.Core.Path.{subst}
use wrany.Prelude.{◌≡◌, ap, Bool, false, Result, ok, err, Option, none, some, List, [], ◌∷◌}

abbrev pub Action : Type 0 → Type 0 → Type 0 → Type 0
Action F S A = S → Result F A × S

-- An error whose text is only logged.
abbrev pub Failure : Type 0
Failure = Unit

abbrev pub or_failure : {A : Type 0} → Option A → Result Failure A
or_failure none = err tt
or_failure (some a) = ok a

abbrev pub read_ok : {F A B : Type 0} → Result F A → B → (A → B) → B
read_ok (err e) d k = d
read_ok (ok a) d k = k a

-- Which of the next statements fail; those behind the end of the list do not.
abbrev pub first_of : List Bool → Bool
first_of [] = false
first_of (b ∷ bs) = b

abbrev pub behind_first : List Bool → List Bool
behind_first [] = []
behind_first (b ∷ bs) = bs

abbrev ok_or : {F A : Type 0} → A → Result F A → A
ok_or a (err e) = a
ok_or a (ok b) = b

module _ {F S : Type 0} where
  abbrev pub pure : {A : Type 0} → A → Action F S A
  pure a s = (ok a, s)

  -- `if err != nil { return err }`
  abbrev pub then_with : {A B : Type 0} → Result F A × S → (A → Action F S B) → Result F B × S
  then_with (err e, s) k = (err e, s)
  then_with (ok a, s) k = k a s

  infixl 5 ◌>>=◌ ◌>>◌
  abbrev pub ◌>>=◌ : {A B : Type 0} → Action F S A → (A → Action F S B) → Action F S B
  ◌>>=◌ m k s = then_with (m s) k

  abbrev pub ◌>>◌ : {A B : Type 0} → Action F S A → Action F S B → Action F S B
  m >> k = m >>= λ _. k

  -- The answer is looked at by the caller, which goes on in either case.
  abbrev pub attempt : {A : Type 0} → Action F S A → Action F S (Result F A)
  attempt m s = let r = m s in (ok r.0, r.1)

  -- What is left, by the answer: `E` after an error, `Q a` after the answer `a`.
  abbrev pub Outcome : {A : Type 0} → (S → Type 0) → (A → S → Type 0) → Result F A × S → Type 0
  Outcome E Q (err e, s) = E s
  Outcome E Q (ok a, s) = Q a s

  abbrev pub Ensures :
      {A : Type 0} → (S → Type 0) → (S → Type 0) → (A → S → Type 0) → Action F S A → Type 0
  Ensures P E Q m = (s : S) → P s → Outcome E Q (m s)

  then_with-Outcome :
      {A B : Type 0} (E : S → Type 0) (Q : A → S → Type 0) (R : B → S → Type 0) (r : Result F A × S)
      (k : A → Action F S B)
      → Outcome E Q r
      → ((a : A) → Ensures (Q a) E R (k a))
      → Outcome E R (then_with r k)
  then_with-Outcome E Q R (err e, s) k h rest = h
  then_with-Outcome E Q R (ok a, s) k h rest = rest a s h

  pub Ensures-bind :
      {A B : Type 0} (P E : S → Type 0) (Q : A → S → Type 0) (R : B → S → Type 0) (m : Action F S A)
      (k : A → Action F S B)
      → Ensures P E Q m
      → ((a : A) → Ensures (Q a) E R (k a))
      → Ensures P E R (m >>= k)
  Ensures-bind P E Q R m k first rest s h = then_with-Outcome E Q R (m s) k (first s h) rest

  pub weaken-Outcome :
      {A : Type 0} (E D : S → Type 0) (Q : A → S → Type 0) (r : Result F A × S)
      → ((s : S) → E s → D s)
      → Outcome E Q r
      → Outcome D Q r
  weaken-Outcome E D Q (err e, s) step h = step s h
  weaken-Outcome E D Q (ok a, s) step h = h

  pub Ensures-weaken :
      {A : Type 0} (P E D : S → Type 0) (Q : A → S → Type 0) (m : Action F S A)
      → ((s : S) → E s → D s)
      → Ensures P E Q m
      → Ensures P D Q m
  Ensures-weaken P E D Q m step h s p = weaken-Outcome E D Q (m s) step (h s p)

  -- What both outcomes leave is left by an attempt.
  attempt-Outcome :
      {A : Type 0} (E : S → Type 0) (Q : A → S → Type 0) (r : Result F A × S)
      → Outcome E Q r
      → ((a : A) (s : S) → Q a s → E s)
      → E r.1
  attempt-Outcome E Q (err e, s) h weaken = h
  attempt-Outcome E Q (ok a, s) h weaken = weaken a s h

  pub Ensures-attempt :
      {A : Type 0} (P E : S → Type 0) (Q : A → S → Type 0) (m : Action F S A)
      → Ensures P E Q m
      → ((a : A) (s : S) → Q a s → E s)
      → Ensures P E (λ _. E) (attempt m)
  Ensures-attempt P E Q m h weaken s p = attempt-Outcome E Q (m s) (h s p) weaken

  -- A loop that passes over the failures of its body.
  unfoldable pub attempt_each :
      {A : Type 0} → (A → Action F S (Unit {0})) → List A → Action F S (Unit {0})
  attempt_each body [] = pure tt
  attempt_each body (x ∷ xs) = attempt (body x) >> attempt_each body xs

  -- `P` may speak of what is left of the list.
  pub Ensures-attempt_each :
      {A : Type 0} (P : List A → S → Type 0) (body : A → Action F S (Unit {0}))
      → ((x : A) (xs : List A) → Ensures (P (x ∷ xs)) (P xs) (λ _. P xs) (body x))
      → (xs : List A) → Ensures (P xs) (P []) (λ _. P []) (attempt_each body xs)
  unfolding attempt_each
  Ensures-attempt_each P body step [] s h = h
  Ensures-attempt_each P body step (x ∷ xs) s h =
      Ensures-attempt_each P body step xs (body x s).1
        (Ensures-attempt (P (x ∷ xs)) (P xs) (λ _. P xs) (body x) (step x xs) (λ _ _ k. k) s h)

  pub Outcome-either :
      {A : Type 0} (P : S → Type 0) (r : Result F A × S) → Outcome P (λ _. P) r → P r.1
  Outcome-either P (err e, s) h = h
  Outcome-either P (ok a, s) h = h

  -- The call keeps the condition, also when it fails.
  abbrev pub Keeps : {A : Type 0} → (S → Type 0) → Action F S A → Type 0
  Keeps P m = Ensures P P (λ _. P) m

  pub Keeps-bind :
      {A B : Type 0} (P : S → Type 0) (m : Action F S A) (k : A → Action F S B)
      → Keeps P m
      → ((a : A) → Keeps P (k a))
      → Keeps P (m >>= k)
  Keeps-bind P m k first rest = Ensures-bind P P (λ _. P) (λ _. P) m k first rest

  -- What holds after an answer that is known.
  pub reached :
      {A : Type 0} (Q : A → S → Type 0) (r : Result F A × S) (a : A)
      → Outcome (λ _. Unit) Q r
      → r.0 ≡ ok a
      → Q a r.1
  reached Q (err e, s) a h k = cc
  reached Q (ok b, s) a h k = subst (λ x. Q x s) (ap (ok_or b) k) h
