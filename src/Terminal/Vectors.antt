-- ===== src/Terminal/Vectors.antt =====
-- `Vec` as vvmux-terminal/src/lib.rs uses it: an index out of range is `none`, where the source
-- panics. `Safe` says that a computation does not panic and what holds of its result.
use vvmux.Prelude.{
  ℕ, zero, suc, min, ◌∙◌, ◌-◌, ◌≤◌, ◌<◌, ◌≡◌, refl, ap, true, ◌&&◌, Option, none, some, List, [],
  ◌∷◌, ◌++◌, length, take, drop, All, All-append, length-append, arith, leb, if◌then◌else◌, ◌>>=◌,
}

module _ {ℓ} {A : Type ℓ} where
  unfoldable pub update_at : ℕ → (A → Option A) → List A → Option (List A)
  update_at i f [] = none
  update_at zero f (x ∷ xs) = do y ← f x; some (y ∷ xs)
  update_at (suc i) f (x ∷ xs) = do ys ← update_at i f xs; some (x ∷ ys)

  -- `Vec::remove`, with the element.
  unfoldable pub remove_at : ℕ → List A → Option (A × List A)
  remove_at i [] = none
  remove_at zero (x ∷ xs) = some (x, xs)
  remove_at (suc i) (x ∷ xs) = do (y, ys) ← remove_at i xs; some (y, x ∷ ys)

  -- `Vec::insert`, which allows the end.
  unfoldable pub insert_at : ℕ → A → List A → Option (List A)
  insert_at zero a xs = some (a ∷ xs)
  insert_at (suc i) a [] = none
  insert_at (suc i) a (x ∷ xs) = do ys ← insert_at i a xs; some (x ∷ ys)

  abbrev pub replicate : ℕ → A → List A
  replicate zero a = []
  replicate (suc n) a = a ∷ replicate n a

  -- `v[start..end].fill(a)`
  unfoldable pub fill_range : ℕ → ℕ → A → List A → Option (List A)
  fill_range start end a xs =
      if leb start end && leb end (length xs)
      then some (take start xs ++ (replicate (end - start) a ++ drop end xs))
      else none

  -- `Vec::resize`
  abbrev pub resize_to : ℕ → A → List A → List A
  resize_to n a xs = take n xs ++ replicate (n - length xs) a

  abbrev pub Safe : (A → Type 0) → Option A → Type 0
  Safe P none = ⊥
  Safe P (some a) = P a

-- The steps of a computation, one after the other.
pub Safe-bind {ℓ κ} :
    {A : Type ℓ} {B : Type κ} (P : A → Type 0) (Q : B → Type 0) (m : Option A) (f : A → Option B)
    → Safe P m
    → ((a : A) → P a → Safe Q (f a))
    → Safe Q (m >>= f)
Safe-bind P Q none f h k = h
Safe-bind P Q (some a) f h k = k a h

pub Safe-weaken {ℓ} :
    {A : Type ℓ} (P Q : A → Type 0) (m : Option A) → Safe P m → ((a : A) → P a → Q a) → Safe Q m
Safe-weaken P Q none h k = h
Safe-weaken P Q (some a) h k = k a h

-- A list of a given length, of elements of one kind.
abbrev pub Sized {ℓ} : {A : Type ℓ} → (A → Type 0) → ℕ → List A → Type 0
Sized Q n xs = (length xs ≡ n) × All Q xs

abbrev pub Anything {ℓ} : {A : Type ℓ} → A → Type 0
Anything a = Unit

module _ {ℓ} {A : Type ℓ} (Q : A → Type 0) where
  pub update_at-Safe :
      (i n : ℕ) (f : A → Option A) (xs : List A)
      → i < n
      → Sized Q n xs
      → ((x : A) → Q x → Safe Q (f x))
      → Safe (Sized Q n) (update_at i f xs)
  unfolding update_at
  update_at-Safe i n f [] h s k = absurd (omega (arith, h, s.0))
  update_at-Safe zero n f (x ∷ xs) h (e, (q, qs)) k =
      Safe-bind Q (Sized Q n) (f x) _ (k x q) (λ y p. (e, (p, qs)))
  update_at-Safe (suc i) n f (x ∷ xs) h (e, (q, qs)) k =
      Safe-bind (Sized Q (length xs)) (Sized Q n) (update_at i f xs) _
        (update_at-Safe i (length xs) f xs (omega (arith, h, e)) (refl, qs) k)
        (λ ys (e', all). (ap suc e' ∙ e, (q, all)))

  pub remove_at-Safe :
      (i n : ℕ) (xs : List A)
      → i < suc n
      → Sized Q (suc n) xs
      → Safe (λ (y, ys). Q y × Sized Q n ys) (remove_at i xs)
  unfolding remove_at
  remove_at-Safe i n [] h s = absurd (omega (arith, s.0))
  remove_at-Safe zero n (x ∷ xs) h (e, (q, qs)) = (q, (omega (arith, e), qs))
  remove_at-Safe (suc i) zero (x ∷ xs) h s = absurd (omega (arith, h))
  remove_at-Safe (suc i) (suc n) (x ∷ xs) h (e, (q, qs)) =
      Safe-bind (λ (y, ys). Q y × Sized Q n ys) (λ (y, ys). Q y × Sized Q (suc n) ys)
        (remove_at i xs) _ (remove_at-Safe i n xs (omega (arith, h)) (omega (arith, e), qs))
        (λ (y, ys) (p, (e', all)). (p, (ap suc e', (q, all))))

  pub insert_at-Safe :
      (i n : ℕ) (a : A) (xs : List A)
      → i ≤ n
      → Q a
      → Sized Q n xs
      → Safe (Sized Q (suc n)) (insert_at i a xs)
  unfolding insert_at
  insert_at-Safe zero n a xs h q (e, qs) = (ap suc e, (q, qs))
  insert_at-Safe (suc i) n a [] h q (e, qs) = absurd (omega (arith, h, e))
  insert_at-Safe (suc i) zero a (x ∷ xs) h q (e, qs) = absurd (omega (arith, h))
  insert_at-Safe (suc i) (suc n) a (x ∷ xs) h q (e, (p, qs)) =
      Safe-bind (Sized Q (suc n)) (Sized Q (suc (suc n))) (insert_at i a xs) _
        (insert_at-Safe i n a xs (omega (arith, h)) q (omega (arith, e), qs))
        (λ ys (e', all). (ap suc e', (p, all)))

  pub replicate-Sized : (n : ℕ) (a : A) → Q a → Sized Q n (replicate n a)
  replicate-Sized zero a q = (refl, tt)
  replicate-Sized (suc n) a q = let (e, all) = replicate-Sized n a q in (ap suc e, (q, all))

  pub All-take : (n : ℕ) (xs : List A) → All Q xs → All Q (take n xs)
  All-take zero xs h = tt
  All-take (suc n) [] h = tt
  All-take (suc n) (x ∷ xs) h = (h.0, All-take n xs h.1)

  pub All-drop : (n : ℕ) (xs : List A) → All Q xs → All Q (drop n xs)
  All-drop zero xs h = h
  All-drop (suc n) [] h = tt
  All-drop (suc n) (x ∷ xs) h = All-drop n xs h.1

module _ {ℓ} {A : Type ℓ} where
  pub length-take : (n : ℕ) (xs : List A) → length (take n xs) ≡ min n (length xs)
  length-take zero xs = omega arith
  length-take (suc n) [] = omega arith
  length-take (suc n) (x ∷ xs) = omega (arith, length-take n xs)

  pub length-drop : (n : ℕ) (xs : List A) → length (drop n xs) ≡ length xs - n
  length-drop zero xs = omega arith
  length-drop (suc n) [] = omega arith
  length-drop (suc n) (x ∷ xs) = omega (arith, length-drop n xs)

module _ {ℓ} {A : Type ℓ} (Q : A → Type 0) where
  pub fill_range-Safe :
      (start end n : ℕ) (a : A) (xs : List A)
      → start ≤ end
      → end ≤ n
      → Q a
      → Sized Q n xs
      → Safe (Sized Q n) (fill_range start end a xs)
  unfolding fill_range
  fill_range-Safe start end n a xs h h' q (e, qs) =
      let test : (leb start end && leb end (length xs)) ≡ true = ground (arith, h, h', e) in
      let (er, allr) = replicate-Sized Q (end - start) a q in
      rw test (
        rw (length-append, length-append, er, length-take, length-drop) (omega (arith, h, h', e)),
        All-append Q (take start xs) _ (All-take Q start xs qs)
            (All-append Q (replicate (end - start) a) _ allr (All-drop Q end xs qs)),
      )

  pub resize_to-Sized :
      (n : ℕ) (a : A) (xs : List A) → Q a → All Q xs → Sized Q n (resize_to n a xs)
  resize_to-Sized n a xs q qs =
      let (er, allr) = replicate-Sized Q (n - length xs) a q in
      (
        rw (length-append, er, length-take) (omega arith),
        All-append Q (take n xs) _ (All-take Q n xs qs) allr,
      )
