-- ===== src/Route/Links/Rows.antt =====
-- Rows of `route_trips` counted by their route, and the rows that the statements of
-- services/tracking-worker/internal/storage/postgres/route_repo.go add and change.
use wrany.Prelude.{
  ℕ, ◌+◌, ◌≡◌, refl, Bool, true, false, ◌||◌, List, [], ◌∷◌, ◌++◌, Uuid, All, ◌==◌, if◌then◌else◌,
  if-elim, arith,
}
use wrany.Store.Tables.{any, insert_new, update_where}
use wrany.Route.Job.{RouteTrip}
use wrany.Route.Repository.{same_trip}

pub same_sym : (a b : ℕ) → (a == b) ≡ false → (b == a) ≡ false
same_sym a b h = ground arith

abbrev pub bit : Bool → ℕ
bit b = if b then 1 else 0

module _ {A : Type 0} where
  pub any-append_one :
      (p : A → Bool) (xs : List A) (x : A) → any p (xs ++ x ∷ []) ≡ (any p xs || p x)
  any-append_one p [] x = ground arith
  any-append_one p (y ∷ ys) x = ground (arith, any-append_one p ys x)

  pub any-ne :
      (p q : A → Bool) (xs : List A)
      → ((x : A) → p x ≡ false → q x ≡ false)
      → any p xs ≡ false
      → any q xs ≡ false
  any-ne p q [] step h = refl
  any-ne p q (x ∷ xs) step h = ground (arith, step x, any-ne p q xs step)

  pub any-All : (p : A → Bool) (xs : List A) → All (λ x. p x ≡ false) xs → any p xs ≡ false
  any-All p [] h = refl
  any-All p (x ∷ xs) (h, hs) = ground (arith, any-All p xs hs)

  pub All-imp : (P Q : A → Type 0) (xs : List A) → ((x : A) → P x → Q x) → All P xs → All Q xs
  All-imp P Q [] step h = tt
  All-imp P Q (x ∷ xs) step (h, hs) = (step x h, All-imp P Q xs step hs)

  pub All-zip : (P Q : A → Type 0) (xs : List A) → All P xs → All Q xs → All (λ x. P x × Q x) xs
  All-zip P Q [] h k = tt
  All-zip P Q (x ∷ xs) (h, hs) (k, ks) = ((h, k), All-zip P Q xs hs ks)

  pub insert_new-elim :
      (P : List A → Type 0) (same : A → A → Bool) (x : A) (xs : List A)
      → (any (same x) xs ≡ true → P xs)
      → (any (same x) xs ≡ false → P (xs ++ x ∷ []))
      → P (insert_new same x xs)
  unfolding insert_new
  insert_new-elim P same x xs old new = if-elim P (any (same x) xs) xs _ old new

  -- An update that leaves the tested columns alone.
  pub any-update_where :
      (p q : A → Bool) (change : A → A) (xs : List A)
      → ((x : A) → p (change x) ≡ p x)
      → any p (update_where q change xs) ≡ any p xs
  unfolding update_where
  any-update_where p q change [] h = refl
  any-update_where p q change (x ∷ xs) h = ground (arith, h x, any-update_where p q change xs h)

  pub All-update_where :
      (P Q : A → Type 0) (q : A → Bool) (change : A → A) (xs : List A)
      → ((x : A) → q x ≡ true → P x → Q (change x))
      → ((x : A) → q x ≡ false → P x → Q x)
      → All P xs
      → All Q (update_where q change xs)
  unfolding update_where
  All-update_where P Q q change [] yes_ no_ h = tt
  All-update_where P Q q change (x ∷ xs) yes_ no_ (h, hs) = (
    if-elim Q (q x) (change x) x (λ e. yes_ x e h) (λ e. no_ x e h),
    All-update_where P Q q change xs yes_ no_ hs,
  )

module _ {W : Type 0} where
  -- How many trips are linked to the route.
  unfoldable pub links_of : Uuid → List (RouteTrip W) → ℕ
  links_of id [] = 0
  links_of id (l ∷ ls) = bit (l.route_id == id) + links_of id ls

  pub links_of-append_one :
      (id : Uuid) (ls : List (RouteTrip W)) (l : RouteTrip W)
      → links_of id (ls ++ l ∷ []) ≡ links_of id ls + bit (l.route_id == id)
  unfolding links_of
  links_of-append_one id [] l = omega arith
  links_of-append_one id (m ∷ ms) l = omega (arith, links_of-append_one id ms l)

  pub links_of-none :
      (id : Uuid) (ls : List (RouteTrip W))
      → All (λ (l : RouteTrip W). (id == l.route_id) ≡ false) ls
      → links_of id ls ≡ 0
  unfolding links_of
  links_of-none id [] h = refl
  links_of-none id (l ∷ ls) (h, hs) = ground (arith, same_sym id l.route_id, links_of-none id ls)

  -- No trip is linked twice.
  abbrev pub IsLinkedOnce : List (RouteTrip W) → Type 0
  IsLinkedOnce [] = Unit
  IsLinkedOnce (l ∷ ls) = (any (same_trip l) ls ≡ false) × IsLinkedOnce ls

  pub append_one-IsLinkedOnce :
      (ls : List (RouteTrip W)) (l : RouteTrip W)
      → IsLinkedOnce ls
      → any (same_trip l) ls ≡ false
      → IsLinkedOnce (ls ++ l ∷ [])
  append_one-IsLinkedOnce [] l h k = (refl, tt)
  append_one-IsLinkedOnce (m ∷ ms) l (h, hs) k = (
    rw (any-append_one (same_trip m) ms l, h) (ground (arith, same_sym l.trip_id m.trip_id)),
    append_one-IsLinkedOnce ms l hs (ground arith),
  )
