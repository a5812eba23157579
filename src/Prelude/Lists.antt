-- ===== src/Prelude/Lists.antt =====
-- Lists measured and indexed by native numbers, under the library's names.
use Prim.Native.Nat.{ℕ, zero, suc, ◌+◌, ◌*◌, ◌<◌, ◌≤◌}
use mathlib.Core.Path.{◌≡◌, refl, ap, sym, ◌∙◌}
use mathlib.Core.List.{List, [], ◌∷◌, ◌++◌, map, append_assoc}
use mathlib.Core.Option.{Option, none, some}
use mathlib.Core.Logic.{◌⊎◌, inl, inr}
use native.Mathlib.Omega.{arith}

module _ {ℓ} {A : Type ℓ} where
  abbrev pub length : List A → ℕ
  length [] = 0
  length (x ∷ xs) = suc (length xs)

  abbrev pub get_elem? : List A → ℕ → Option A
  get_elem? [] i = none
  get_elem? (x ∷ xs) zero = some x
  get_elem? (x ∷ xs) (suc i) = get_elem? xs i

  abbrev pub take : ℕ → List A → List A
  take zero xs = []
  take (suc n) [] = []
  take (suc n) (x ∷ xs) = x ∷ take n xs

  abbrev pub drop : ℕ → List A → List A
  drop zero xs = xs
  drop (suc n) [] = []
  drop (suc n) (x ∷ xs) = drop n xs

  -- `xss[0] + xss[1] + …`
  abbrev pub concat : List (List A) → List A
  concat [] = []
  concat (xs ∷ xss) = xs ++ concat xss

  pub length-append : (xs ys : List A) → length (xs ++ ys) ≡ length xs + length ys
  length-append [] ys = omega arith
  length-append (x ∷ xs) ys = omega (arith, length-append xs ys)

  pub take-append-drop : (n : ℕ) (xs : List A) → take n xs ++ drop n xs ≡ xs
  take-append-drop zero xs = refl
  take-append-drop (suc n) [] = refl
  take-append-drop (suc n) (x ∷ xs) = rw (take-append-drop n xs)

  pub take-of_le : (n : ℕ) (xs : List A) → length xs ≤ n → take n xs ≡ xs
  take-of_le zero [] h = refl
  take-of_le zero (x ∷ xs) h = absurd (omega arith)
  take-of_le (suc n) [] h = refl
  take-of_le (suc n) (x ∷ xs) h = rw (take-of_le n xs (omega arith))

  pub concat-append : (xss yss : List (List A)) → concat (xss ++ yss) ≡ concat xss ++ concat yss
  concat-append [] yss = refl
  concat-append (xs ∷ xss) yss = rw (concat-append xss yss, append_assoc)

  pub get_elem?-append :
      (xs : List A) (y : A) (ys : List A) → get_elem? (xs ++ y ∷ ys) (length xs) ≡ some y
  get_elem?-append [] y ys = refl
  get_elem?-append (x ∷ xs) y ys = get_elem?-append xs y ys

  pub get_elem?-some : (xs : List A) (i : ℕ) → i < length xs → (a : A) × (get_elem? xs i ≡ some a)
  get_elem?-some [] i h = elim h [ ]
  get_elem?-some (x ∷ xs) zero h = (x, refl)
  get_elem?-some (x ∷ xs) (suc i) h = get_elem?-some xs i (omega arith)

-- `range(i, i + n)`
abbrev pub range_from : ℕ → ℕ → List ℕ
range_from i zero = []
range_from i (suc n) = i ∷ range_from (suc i) n

-- `range(n)`
abbrev pub range : ℕ → List ℕ
range n = range_from 0 n

module _ {ℓ κ} {A : Type ℓ} {B : Type κ} where
  -- The items that a nested loop appends.
  abbrev pub flat_map : (A → List B) → List A → List B
  flat_map f [] = []
  flat_map f (x ∷ xs) = f x ++ flat_map f xs

  pub length-map : (f : A → B) (xs : List A) → length (map f xs) ≡ length xs
  length-map f [] = refl
  length-map f (x ∷ xs) = ap suc (length-map f xs)

  pub length-flat_map :
      (f : A → List B) (n : ℕ)
      → ((x : A) → length (f x) ≡ n)
      → (xs : List A) → length (flat_map f xs) ≡ length xs * n
  length-flat_map f n h [] = omega arith
  length-flat_map f n h (x ∷ xs) =
      omega (arith, length-append (f x) (flat_map f xs), h x, length-flat_map f n h xs)

pub length-range_from : (i n : ℕ) → length (range_from i n) ≡ n
length-range_from i zero = refl
length-range_from i (suc n) = ap suc (length-range_from (suc i) n)

pub length-range : (n : ℕ) → length (range n) ≡ n
length-range n = length-range_from 0 n

-- A predicate on every item.
abbrev pub All {ℓ κ} : {A : Type ℓ} → (A → Type κ) → List A → Type κ
All P [] = Unit
All P (x ∷ xs) = P x × All P xs

module _ {ℓ κ} {A : Type ℓ} (P : A → Type κ) where
  pub All-append : (xs ys : List A) → All P xs → All P ys → All P (xs ++ ys)
  All-append [] ys h k = k
  All-append (x ∷ xs) ys h k = (h.0, All-append xs ys h.1 k)

  pub All-take : (n : ℕ) (xs : List A) → All P xs → All P (take n xs)
  All-take zero xs h = tt
  All-take (suc n) [] h = tt
  All-take (suc n) (x ∷ xs) h = (h.0, All-take n xs h.1)

  pub All-drop : (n : ℕ) (xs : List A) → All P xs → All P (drop n xs)
  All-drop zero xs h = h
  All-drop (suc n) [] h = tt
  All-drop (suc n) (x ∷ xs) h = All-drop n xs h.1

module _ {ℓ κ μ} {A : Type ℓ} {B : Type κ} (P : B → Type μ) where
  pub All-flat_map :
      (f : A → List B) (xs : List A) → ((x : A) → All P (f x)) → All P (flat_map f xs)
  All-flat_map f [] h = tt
  All-flat_map f (x ∷ xs) h = All-append P (f x) (flat_map f xs) (h x) (All-flat_map f xs h)

  pub All-map : (f : A → B) (xs : List A) → ((x : A) → P (f x)) → All P (map f xs)
  All-map f [] h = tt
  All-map f (x ∷ xs) h = (h x, All-map f xs h)

module _ {ℓ κ μ} {A : Type ℓ} {P : A → Type κ} {Q : A → Type μ} where
  pub All-imp : (xs : List A) → ((x : A) → P x → Q x) → All P xs → All Q xs
  All-imp [] f h = tt
  All-imp (x ∷ xs) f h = (f x h.0, All-imp xs f h.1)

module _ {ℓ κ μ ν} {A : Type ℓ} {P : A → Type κ} {Q : A → Type μ} {R : A → Type ν} where
  pub All-both : (xs : List A) → ((x : A) → P x → Q x → R x) → All P xs → All Q xs → All R xs
  All-both [] f h k = tt
  All-both (x ∷ xs) f h k = (f x h.0 k.0, All-both xs f h.1 k.1)

module _ {ℓ} {A : Type ℓ} where
  -- `n` copies of a list, one behind the other.
  abbrev pub repeat : ℕ → List A → List A
  repeat zero xs = []
  repeat (suc n) xs = xs ++ repeat n xs

  pub drop-nil : (n : ℕ) → ◌≡◌ {A = List A} (drop n []) []
  drop-nil zero = refl
  drop-nil (suc n) = refl

  pub take-nil : (n : ℕ) → ◌≡◌ {A = List A} (take n []) []
  take-nil zero = refl
  take-nil (suc n) = refl

  pub drop-drop : (m n k : ℕ) (xs : List A) → k ≡ m + n → drop n (drop m xs) ≡ drop k xs
  drop-drop zero n k xs e = let f : k ≡ n = omega arith in rw f
  drop-drop (suc m) n k [] e = drop-nil n ∙ sym (drop-nil k)
  drop-drop (suc m) n zero (x ∷ xs) e = absurd (omega arith)
  drop-drop (suc m) n (suc k) (x ∷ xs) e = drop-drop m n k xs (omega arith)

  pub take-add : (m n k : ℕ) (xs : List A) → k ≡ m + n → take k xs ≡ take m xs ++ take n (drop m xs)
  take-add zero n k xs e = let f : k ≡ n = omega arith in rw f
  take-add (suc m) n k [] e = take-nil k ∙ sym (take-nil n)
  take-add (suc m) n zero (x ∷ xs) e = absurd (omega arith)
  take-add (suc m) n (suc k) (x ∷ xs) e = rw (take-add m n k xs (omega arith))

  pub get_elem?-drop :
      (p : ℕ) (xs : List A)
      → ((get_elem? xs p ≡ none) × (drop p xs ≡ []))
        ⊎ ((x : A) × (get_elem? xs p ≡ some x) × (drop p xs ≡ x ∷ drop (suc p) xs))
  get_elem?-drop zero [] = inl (refl, refl)
  get_elem?-drop zero (x ∷ xs) = inr (x, refl, refl)
  get_elem?-drop (suc p) [] = inl (refl, refl)
  get_elem?-drop (suc p) (x ∷ xs) = get_elem?-drop p xs

pub range_from-append :
    (i m n k l : ℕ) → k ≡ m + n → l ≡ i + m → range_from i k ≡ range_from i m ++ range_from l n
range_from-append i zero n k l e f =
    let e' : k ≡ n = omega arith in let f' : l ≡ i = omega arith in rw (e', f')
range_from-append i (suc m) n zero l e f = absurd (omega arith)
range_from-append i (suc m) n (suc k) l e f =
    rw (range_from-append (suc i) m n k l (omega arith) (omega arith))

module _ {ℓ κ} {A : Type ℓ} (P : A → Type κ) where
  pub All-get :
      (xs : List A) (i : ℕ) → All P xs → i < length xs → (x : A) × (get_elem? xs i ≡ some x) × P x
  All-get [] i h lt = elim lt [ ]
  All-get (x ∷ xs) zero h lt = (x, refl, h.0)
  All-get (x ∷ xs) (suc i) h lt = All-get xs i h.1 (omega arith)

module _ {ℓ} {A : Type ℓ} where
  pub length-take_of_le : (n : ℕ) (xs : List A) → n ≤ length xs → length (take n xs) ≡ n
  length-take_of_le zero xs h = refl
  length-take_of_le (suc n) [] h = absurd (omega arith)
  length-take_of_le (suc n) (x ∷ xs) h = ap suc (length-take_of_le n xs (omega arith))

  pub length-repeat : (n : ℕ) (xs : List A) → length (repeat n xs) ≡ n * length xs
  length-repeat zero xs = omega arith
  length-repeat (suc n) xs = omega (arith, length-append xs (repeat n xs), length-repeat n xs)
