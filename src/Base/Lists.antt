-- ===== src/Base/Lists.antt =====
-- Lists measured and indexed by native numbers, under the library's names.
use Prim.Native.Nat.{ℕ, zero, suc, ◌+◌, ◌-◌, ◌≤◌, ◌<◌, min}
use mathlib.Core.Path.{◌≡◌, refl, ap, ◌∙◌}
use mathlib.Core.Logic.{◌≢◌}
use mathlib.Core.List.{List, [], ◌∷◌, ◌++◌, map}
use mathlib.Core.Option.{Option, none, some}
use native.Mathlib.Omega.{arith}

module _ {ℓ} {A : Type ℓ} where
  abbrev pub length : List A → ℕ
  length [] = 0
  length (x ∷ xs) = suc (length xs)

  abbrev pub get_elem? : List A → ℕ → Option A
  get_elem? [] i = none
  get_elem? (x ∷ xs) zero = some x
  get_elem? (x ∷ xs) (suc i) = get_elem? xs i

  abbrev pub take : ℕ → List A → List A
  take zero xs = []
  take (suc n) [] = []
  take (suc n) (x ∷ xs) = x ∷ take n xs

  abbrev pub drop : ℕ → List A → List A
  drop zero xs = xs
  drop (suc n) [] = []
  drop (suc n) (x ∷ xs) = drop n xs

  -- `v[i] = x`; a write out of bounds changes nothing.
  abbrev pub set : List A → ℕ → A → List A
  set [] i v = []
  set (x ∷ xs) zero v = v ∷ xs
  set (x ∷ xs) (suc i) v = x ∷ set xs i v

  abbrev pub replicate : ℕ → A → List A
  replicate zero a = []
  replicate (suc n) a = a ∷ replicate n a

  -- Every element satisfies `P`.
  abbrev pub All {κ} : (A → Type κ) → List A → Type κ
  All P [] = Unit
  All P (x ∷ xs) = P x × All P xs

  -- No element is `a`.
  abbrev pub Absent : A → List A → Type ℓ
  Absent a [] = Unit
  Absent a (x ∷ xs) = (x ≢ a) × Absent a xs

  abbrev pub last? : List A → Option A
  last? [] = none
  last? (x ∷ []) = some x
  last? (x ∷ y ∷ xs) = last? (y ∷ xs)

module _ {ℓ} {A : Type ℓ} where
  pub length-append : (xs ys : List A) → length (xs ++ ys) ≡ length xs + length ys
  length-append [] ys = omega arith
  length-append (x ∷ xs) ys = omega (arith, length-append xs ys)

  pub take_all : (xs : List A) → take (length xs) xs ≡ xs
  take_all [] = refl
  take_all (x ∷ xs) = rw (take_all xs)

  pub take-append : (xs ys : List A) → take (length xs) (xs ++ ys) ≡ xs
  take-append [] ys = refl
  take-append (x ∷ xs) ys = rw (take-append xs ys)

  pub drop-append : (xs ys : List A) → drop (length xs) (xs ++ ys) ≡ ys
  drop-append [] ys = refl
  drop-append (x ∷ xs) ys = drop-append xs ys

  pub drop_all : (xs : List A) → drop (length xs) xs ≡ []
  drop_all [] = refl
  drop_all (x ∷ xs) = drop_all xs

  pub take-append-drop : (n : ℕ) (xs : List A) → take n xs ++ drop n xs ≡ xs
  take-append-drop zero xs = refl
  take-append-drop (suc n) [] = refl
  take-append-drop (suc n) (x ∷ xs) = rw (take-append-drop n xs)

  pub length-take : (n : ℕ) (xs : List A) → length (take n xs) ≡ min n (length xs)
  length-take zero xs = omega arith
  length-take (suc n) [] = omega arith
  length-take (suc n) (x ∷ xs) = omega (arith, length-take n xs)

  pub length-drop : (n : ℕ) (xs : List A) → length (drop n xs) ≡ length xs - n
  length-drop zero xs = omega arith
  length-drop (suc n) [] = omega arith
  length-drop (suc n) (x ∷ xs) = omega (arith, length-drop n xs)

  pub length-set : (xs : List A) (i : ℕ) (v : A) → length (set xs i v) ≡ length xs
  length-set [] i v = refl
  length-set (x ∷ xs) zero v = refl
  length-set (x ∷ xs) (suc i) v = ap suc (length-set xs i v)

  pub length-map {κ} : {B : Type κ} (f : A → B) (xs : List A) → length (map f xs) ≡ length xs
  length-map f [] = refl
  length-map f (x ∷ xs) = ap suc (length-map f xs)

  pub last?-snoc : (xs : List A) (x : A) → last? (xs ++ x ∷ []) ≡ some x
  last?-snoc [] x = refl
  last?-snoc (y ∷ []) x = refl
  last?-snoc (y ∷ z ∷ xs) x = last?-snoc (z ∷ xs) x

  pub get_elem?-append : (xs ys : List A) (x : A) → get_elem? (xs ++ x ∷ ys) (length xs) ≡ some x
  get_elem?-append [] ys x = refl
  get_elem?-append (y ∷ xs) ys x = get_elem?-append xs ys x

  -- What `drop` leaves shows the element at its place, in any extension.
  pub get_elem?-drop :
      (xs ys : List A) (d : ℕ) (e : A) (es : List A)
      → drop d xs ≡ e ∷ es
      → get_elem? (xs ++ ys) d ≡ some e
  get_elem?-drop [] ys zero e es h = ground arith
  get_elem?-drop [] ys (suc d) e es h = ground arith
  get_elem?-drop (x ∷ xs) ys zero e es h = ground arith
  get_elem?-drop (x ∷ xs) ys (suc d) e es h = get_elem?-drop xs ys d e es h

  pub drop-suc :
      (xs : List A) (d : ℕ) (e : A) (es : List A) → drop d xs ≡ e ∷ es → drop (suc d) xs ≡ es
  drop-suc [] zero e es h = ground arith
  drop-suc [] (suc d) e es h = ground arith
  drop-suc (x ∷ xs) zero e es h = ground arith
  drop-suc (x ∷ xs) (suc d) e es h = drop-suc xs d e es h

  -- Equal prefixes, an equal next element: longer equal prefixes.
  pub take-suc :
      (xs : List A) (d : ℕ) (e : A)
      → get_elem? xs d ≡ some e
      → take (suc d) xs ≡ take d xs ++ e ∷ []
  take-suc [] d e h = ground arith
  take-suc (x ∷ xs) zero e h = ground arith
  take-suc (x ∷ xs) (suc d) e h = rw (take-suc xs d e h)

  pub drop-get_elem? :
      (xs : List A) (d : ℕ) (e : A) → get_elem? xs d ≡ some e → drop d xs ≡ e ∷ drop (suc d) xs
  drop-get_elem? [] d e h = ground arith
  drop-get_elem? (x ∷ xs) zero e h = ground arith
  drop-get_elem? (x ∷ xs) (suc d) e h = drop-get_elem? xs d e h

  pub drop-length : (xs : List A) (d : ℕ) → d ≡ length xs → drop d xs ≡ []
  drop-length xs d e = rw e (drop_all xs)

  pub drop_beyond : (xs : List A) (n : ℕ) → length xs ≤ n → drop n xs ≡ []
  drop_beyond [] zero h = refl
  drop_beyond [] (suc n) h = refl
  drop_beyond (x ∷ xs) zero h = absurd (omega arith)
  drop_beyond (x ∷ xs) (suc n) h = drop_beyond xs n (omega arith)

  pub drop_past-append : (xs ys : List A) (x : A) → drop (length xs + 1) (xs ++ x ∷ ys) ≡ ys
  drop_past-append xs ys x =
      let k : length xs + 1 ≡ suc (length xs) = omega arith in
      rw k (drop-suc (xs ++ x ∷ ys) (length xs) x ys (drop-append xs (x ∷ ys)))

  pub take-take : (j k : ℕ) (xs : List A) → j ≤ k → take j (take k xs) ≡ take j xs
  take-take zero k xs h = refl
  take-take (suc j) zero xs h = absurd (omega arith)
  take-take (suc j) (suc k) [] h = refl
  take-take (suc j) (suc k) (x ∷ xs) h = rw (take-take j k xs (omega arith))

  -- A list is its first elements, the next one and the rest.
  pub rebuild :
      (xs : List A) (d : ℕ) (e : A)
      → get_elem? xs d ≡ some e
      → xs ≡ take d xs ++ e ∷ drop (suc d) xs
  rebuild [] d e h = ground arith
  rebuild (x ∷ xs) zero e h = ground arith
  rebuild (x ∷ xs) (suc d) e h = ap (◌∷◌ x) (rebuild xs d e h)

  pub take-append_le :
      (k : ℕ) (xs ys : List A) → length xs ≤ k → take k (xs ++ ys) ≡ xs ++ take (k - length xs) ys
  take-append_le k [] ys h = ap (λ n. take n ys) (omega arith)
  take-append_le zero (x ∷ xs) ys h = absurd (omega arith)
  take-append_le (suc k) (x ∷ xs) ys h =
      ap (◌∷◌ x) (take-append_le k xs ys (omega arith) ∙ ap (λ n. xs ++ take n ys) (omega arith))

  pub drop-append_le :
      (k : ℕ) (xs ys : List A) → length xs ≤ k → drop k (xs ++ ys) ≡ drop (k - length xs) ys
  drop-append_le k [] ys h = ap (λ n. drop n ys) (omega arith)
  drop-append_le zero (x ∷ xs) ys h = absurd (omega arith)
  drop-append_le (suc k) (x ∷ xs) ys h =
      drop-append_le k xs ys (omega arith) ∙ ap (λ n. drop n ys) (omega arith)

  pub take-nil : (n : ℕ) → take {A = A} n [] ≡ []
  take-nil zero = refl
  take-nil (suc n) = refl

  pub drop-nil : (n : ℕ) → drop {A = A} n [] ≡ []
  drop-nil zero = refl
  drop-nil (suc n) = refl

  -- Taking something of a list gives nothing only at its end.
  pub take_none : (n : ℕ) (xs : List A) → 0 < n → take n xs ≡ [] → drop n xs ≡ []
  take_none zero xs h e = absurd (omega arith)
  take_none (suc n) [] h e = refl
  take_none (suc n) (x ∷ xs) h e = cc
