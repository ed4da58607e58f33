-- ===== src/Prelude/Tests.antt =====
-- Boolean tests, the conditional, the sequencing of steps that may panic, and time.
use Prim.Native.Nat.{ℕ, ◌*◌, compare, Ordering}
use Prim.Native.Char.{code}
use Prim.Native.String.{String}
use mathlib.Core.Path.{◌≡◌, refl, sym, subst}
use mathlib.Core.Logic.{◌⊎◌, inl, inr}
use mathlib.Core.Bool.{Bool, true, false}
use mathlib.Core.Option.{Option, none, some}
use native.Mathlib.Omega.{arith}
use text.Mathlib.Text.{◌==◌ as native_str_eq}

abbrev pub ltb : ℕ → ℕ → Bool
ltb a b = elim (compare a b) [ Ordering.lt ↦ true | _ ↦ false ]

abbrev pub leb : ℕ → ℕ → Bool
leb a b = elim (compare a b) [ Ordering.gt ↦ false | _ ↦ true ]

infix 50 ◌==◌
abbrev pub ◌==◌ : ℕ → ℕ → Bool
a == b = elim (compare a b) [ Ordering.eq ↦ true | _ ↦ false ]

-- Go's `+` on strings.
abbrev pub concat : String → String → String
concat s t = Prim.Native.String.◌++◌ s t

abbrev pub str_eq : String → String → Bool
str_eq s t = native_str_eq s t

infix 1 if◌then◌else◌
abbrev pub if◌then◌else◌ {ℓ} : {A : Type ℓ} → Bool → A → A → A
if true then x else y = x
if false then x else y = y

pub Bool-cases : (b : Bool) → (b ≡ true) ⊎ (b ≡ false)
Bool-cases true = inl refl
Bool-cases false = inr refl

pub Option-cases {ℓ} : {A : Type ℓ} (o : Option A) → (o ≡ none) ⊎ ((a : A) × (o ≡ some a))
Option-cases none = inl refl
Option-cases (some a) = inr (a, refl)

-- A step that may panic, on a nil pointer, is an `Option`: `none` is the panic.
infixl 5 ◌>>=◌
abbrev pub ◌>>=◌ {ℓ κ} : {A : Type ℓ} {B : Type κ} → Option A → (A → Option B) → Option B
none >>= f = none
some a >>= f = f a

abbrev pub is_some {ℓ} : {A : Type ℓ} → Option A → Bool
is_some none = false
is_some (some a) = true

-- `*p` with a default where the source tests for nil first.
abbrev pub get_or_else {ℓ} : {A : Type ℓ} → Option A → A → A
get_or_else none d = d
get_or_else (some a) d = a

abbrev pub option_map {ℓ κ} : {A : Type ℓ} {B : Type κ} → (A → B) → Option A → Option B
option_map f none = none
option_map f (some a) = some (f a)

-- `time.Time` is the number of nanoseconds since Go's zero time, which is 0.
abbrev pub Time : Type 0
Time = ℕ

-- `time.Duration(n) * time.Second`
abbrev pub seconds : ℕ → ℕ
seconds n = n * 1_000_000_000

-- `uuid.UUID`, as its 128-bit number.
abbrev pub Uuid : Type 0
Uuid = ℕ

-- Two pointers read together; `none` where either is nil.
abbrev pub both {ℓ κ} : {A : Type ℓ} {B : Type κ} → Option A → Option B → Option (A × B)
both none _ = none
both (some a) none = none
both (some a) (some b) = some (a, b)

-- Go's `<` on strings: their bytes in UTF-8 stand in the order of their code points.
abbrev pub str_lt : String → String → Bool
str_lt _ String.[] = false
str_lt String.[] (String.◌∷◌ d t) = true
str_lt (String.◌∷◌ c s) (String.◌∷◌ d t) =
    if ltb (code c) (code d) then true else if code c == code d then str_lt s t else false

-- The step ends, without a panic, in a value with the property.
abbrev pub Yields {ℓ} : {A : Type ℓ} → (A → Type 0) → Option A → Type 0
Yields P none = ⊥
Yields P (some a) = P a

pub Yields-bind {ℓ κ} :
    {A : Type ℓ} {B : Type κ} (P : A → Type 0) (Q : B → Type 0) (m : Option A) (k : A → Option B)
    → Yields P m
    → ((a : A) → P a → Yields Q (k a))
    → Yields Q (m >>= k)
Yields-bind P Q none k h step = h
Yields-bind P Q (some a) k h step = step a h

pub if-elim {ℓ κ} :
    {A : Type ℓ} (P : A → Type κ) (b : Bool) (x y : A)
    → (b ≡ true → P x)
    → (b ≡ false → P y)
    → P (if b then x else y)
if-elim P true x y p q = p refl
if-elim P false x y p q = q refl

-- A pointer that is set is read without a panic.
pub Yields-from {ℓ κ} :
    {A : Type ℓ} {B : Type κ} (Q : B → Type 0) (o : Option A) (k : A → Option B)
    → is_some o ≡ true
    → ((a : A) → o ≡ some a → Yields Q (k a))
    → Yields Q (o >>= k)
Yields-from Q none k h step = ground arith
Yields-from Q (some a) k h step = step a refl

pub Yields-exists {ℓ} :
    {A : Type ℓ} (P : A → Type 0) (m : Option A) → Yields P m → (a : A) × (m ≡ some a) × P a
Yields-exists P none h = absurd h
Yields-exists P (some a) h = (a, refl, h)

pub Yields-map {ℓ} :
    {A : Type ℓ} (P Q : A → Type 0) (m : Option A) → Yields P m → ((a : A) → P a → Q a) → Yields Q m
Yields-map P Q none h step = h
Yields-map P Q (some a) h step = step a h

pub Yields-some {ℓ} :
    {A : Type ℓ} (P : A → Type 0) (m : Option A) {a : A} → Yields P m → m ≡ some a → P a
Yields-some P m h e = subst (Yields P) e h

-- The step panics or ends in a value with the property.
abbrev pub IfSome {ℓ} : {A : Type ℓ} → (A → Type 0) → Option A → Type 0
IfSome P none = Unit
IfSome P (some a) = P a

pub IfSome-bind {ℓ κ} :
    {A : Type ℓ} {B : Type κ} (P : A → Type 0) (Q : B → Type 0) (m : Option A) (k : A → Option B)
    → IfSome P m
    → ((a : A) → P a → IfSome Q (k a))
    → IfSome Q (m >>= k)
IfSome-bind P Q none k h step = tt
IfSome-bind P Q (some a) k h step = step a h

pub IfSome-read {ℓ κ} :
    {A : Type ℓ} {B : Type κ} (Q : B → Type 0) (m : Option A) (k : A → Option B)
    → ((a : A) → m ≡ some a → IfSome Q (k a))
    → IfSome Q (m >>= k)
IfSome-read Q none k step = tt
IfSome-read Q (some a) k step = step a refl

pub IfSome-some {ℓ} :
    {A : Type ℓ} (P : A → Type 0) (m : Option A) {a : A} → IfSome P m → m ≡ some a → P a
IfSome-some P m h e = subst (IfSome P) e h

-- A Go result with an error: either the value or the error.
pub data Result {ℓ κ} (E : Type ℓ) (A : Type κ) : Type (ℓ ⊔ κ) where
  ok : A → Result E A
  err : E → Result E A

pub Yields-option_map {ℓ κ} :
    {A : Type ℓ} {B : Type κ} (P : B → Type 0) (g : A → B) (m : Option A)
    → Yields (λ a. P (g a)) m
    → Yields P (option_map g m)
Yields-option_map P g none h = h
Yields-option_map P g (some a) h = h

-- The answer of a read that may fail: a default where it failed.
abbrev pub read_or {ℓ κ} : {A : Type ℓ} {B : Type κ} → Option A → B → (A → B) → B
read_or none d k = d
read_or (some a) d k = k a

pub read_or-elim {ℓ κ} :
    {A : Type ℓ} {B : Type κ} (P : B → Type 0) (m : Option A) (d : B) (k : A → B)
    → (m ≡ none → P d)
    → ((a : A) → m ≡ some a → P (k a))
    → P (read_or m d k)
read_or-elim P none d k p q = p refl
read_or-elim P (some a) d k p q = q a refl

abbrev pub IfOk {ℓ κ} : {E : Type ℓ} {A : Type κ} → (A → Type 0) → Result E A → Type 0
IfOk P (ok a) = P a
IfOk P (err e) = Unit

pub IfOk-map {ℓ κ} :
    {E : Type ℓ} {A : Type κ} (P Q : A → Type 0) (m : Result E A)
    → IfOk P m
    → ((a : A) → P a → Q a)
    → IfOk Q m
IfOk-map P Q (ok a) h step = step a h
IfOk-map P Q (err e) h step = tt

pub IfOk-ok {ℓ κ} :
    {E : Type ℓ} {A : Type κ} (P : A → Type 0) (m : Result E A) (a : A) → IfOk P m → m ≡ ok a → P a
IfOk-ok P m a h e = subst (IfOk P) e h

-- A pointer with a known value is read as that value.
pub Yields-read {ℓ κ} :
    {A : Type ℓ} {B : Type κ} (Q : B → Type 0) (o : Option A) (a : A) (k : A → Option B)
    → o ≡ some a
    → Yields Q (k a)
    → Yields Q (o >>= k)
Yields-read Q o a k e h = subst (λ m. Yields Q (m >>= k)) (sym e) h

-- A test does not answer both.
pub contradiction {ℓ} : {A : Type ℓ} (b : Bool) → b ≡ true → b ≡ false → A
contradiction b h k = ground arith

pub IfSome-always {ℓ} : {A : Type ℓ} {X : Type 0} (o : Option A) → X → IfSome (λ _. X) o
IfSome-always none x = tt
IfSome-always (some a) x = x
