-- ===== src/Live/Window/Zip.antt =====
-- The points of the two columns of a chart as one list.
use iot_saas.Prelude.{ℕ, zero, suc, ◌≡◌, refl, ap, none, some, List, [], ◌∷◌, ◌++◌, length, arith}
use iot_saas.Live.Window.{last, drop}

-- the points of two columns
abbrev pub zip : {A B : Type 0} → List A → List B → List (A × B)
zip (x ∷ xs) (y ∷ ys) = (x, y) ∷ zip xs ys
zip _ _ = []

zip-empty : {A B : Type 0} (xs : List A) → zip {A = A} {B = B} xs [] ≡ []
zip-empty [] = refl
zip-empty (x ∷ xs) = refl

pub zip-drop :
    {A B : Type 0} (n : ℕ) (xs : List A) (ys : List B)
    → zip (drop n xs) (drop n ys) ≡ drop n (zip xs ys)
zip-drop zero xs ys = refl
zip-drop (suc n) [] [] = refl
zip-drop (suc n) [] (y ∷ ys) = refl
zip-drop (suc n) (x ∷ xs) [] = zip-empty (drop n xs)
zip-drop (suc n) (x ∷ xs) (y ∷ ys) = zip-drop n xs ys

pub some_same : {A : Type 0} (a b : A) → some a ≡ some b → a ≡ b
some_same a b h = ap (λ o. elim o [ none ↦ a | some c ↦ c ]) h

pub no_last : {A : Type 0} (xs : List A) → last xs ≡ none → xs ≡ []
no_last [] h = refl
no_last (x ∷ []) h = absurd (ground arith)
no_last (x ∷ y ∷ xs) h = absurd (omega (arith, ap length (no_last (y ∷ xs) h)))

pub zip-append :
    {A B : Type 0} (xs : List A) (ys : List B) (x : A) (y : B)
    → length xs ≡ length ys
    → zip (xs ++ x ∷ []) (ys ++ y ∷ []) ≡ zip xs ys ++ (x, y) ∷ []
zip-append [] [] x y h = refl
zip-append (a ∷ xs) [] x y h = absurd (omega arith)
zip-append [] (b ∷ ys) x y h = absurd (omega arith)
zip-append (a ∷ xs) (b ∷ ys) x y h = ap (λ ps. (a, b) ∷ ps) (zip-append xs ys x y (omega arith))
