-- ===== src/Global/Removal/Arrays.antt =====
-- The cells of an array, before and after one is taken out of its slice.
use mathlib.Core.List.{append_assoc}
use pre_scaling_operator.Common.{
  ℕ, suc, ◌+◌, ◌-◌, Bool, true, false, ◌≡◌, refl, ap, some, List, [], ◌∷◌, ◌++◌, arith,
  if◌then◌else◌, length, get_elem?, take, drop, leb, length-append,
}
use pre_scaling_operator.Global.Denylist.{remove_index}

module _ {ℓ} {A : Type ℓ} where
  take_front : (xs ys : List A) → take (length xs) (xs ++ ys) ≡ xs
  take_front [] ys = refl
  take_front (x ∷ xs) ys = ap (◌∷◌ x) (take_front xs ys)

  drop_front : (xs ys : List A) → drop (length xs) (xs ++ ys) ≡ ys
  drop_front [] ys = refl
  drop_front (x ∷ xs) ys = drop_front xs ys

  pub take_whole : (xs : List A) → take (length xs) xs ≡ xs
  take_whole [] = refl
  take_whole (x ∷ xs) = ap (◌∷◌ x) (take_whole xs)

  drop_front_suc : (xs : List A) (y : A) (ys : List A) → drop (length xs + 1) (xs ++ y ∷ ys) ≡ ys
  drop_front_suc [] y ys = refl
  drop_front_suc (x ∷ xs) y ys =
      let e : length (x ∷ xs) + 1 ≡ suc (length xs + 1) = omega arith in
      rw e (drop_front_suc xs y ys)

  get_elem?_front :
      (xs : List A) (y : A) (ys : List A) → get_elem? (xs ++ y ∷ ys) (length xs) ≡ some y
  get_elem?_front [] y ys = refl
  get_elem?_front (x ∷ xs) y ys = get_elem?_front xs y ys

  -- The slice without the entry `x`, and what stays behind it in the array.
  pub remove_index_lem :
      (xs : List A) (x : A) (ys : List A)
      → remove_index (xs ++ x ∷ ys) (length (xs ++ x ∷ ys)) (length xs)
        ≡ some (xs ++ (ys ++ drop (length (xs ++ ys)) (xs ++ x ∷ ys)), length (xs ++ ys))
  unfolding remove_index
  remove_index_lem xs x ys =
      let l : length (xs ++ x ∷ ys) ≡ suc (length (xs ++ ys)) =
        omega (arith, length-append xs (x ∷ ys), length-append xs ys) in
      let fits : leb (length xs + 1) (length (xs ++ x ∷ ys)) ≡ true =
        ground (arith, length-append xs (x ∷ ys)) in
      let shorter : length (xs ++ x ∷ ys) - 1 ≡ length (xs ++ ys) = omega (arith, l) in
      rw fits (
        rw (take_whole (xs ++ x ∷ ys))
          (rw shorter (rw (take_front xs (x ∷ ys)) (rw (drop_front_suc xs x ys)))))

  pub get_elem?_after :
      (xs ys : List A) (k : ℕ) → get_elem? (xs ++ ys) (length xs + k) ≡ get_elem? ys k
  get_elem?_after [] ys k = let e : 0 + k ≡ k = omega arith in rw e
  get_elem?_after (x ∷ xs) ys k =
      let e : length (x ∷ xs) + k ≡ suc (length xs + k) = omega arith in
      rw e (get_elem?_after xs ys k)

  pub drop_after : (xs ys : List A) (k : ℕ) → drop (length xs + k) (xs ++ ys) ≡ drop k ys
  drop_after [] ys k = let e : 0 + k ≡ k = omega arith in rw e
  drop_after (x ∷ xs) ys k =
      let e : length (x ∷ xs) + k ≡ suc (length xs + k) = omega arith in rw e (drop_after xs ys k)

  pub take_kept : (xs ys zs : List A) → take (length (xs ++ ys)) (xs ++ (ys ++ zs)) ≡ xs ++ ys
  take_kept xs ys zs = rw (← append_assoc xs ys zs) (take_front (xs ++ ys) zs)

  pub same_read :
      (b : Bool) (xs : List A) (k : ℕ) → get_elem? (if b then xs else xs) k ≡ get_elem? xs k
  same_read true xs k = refl
  same_read false xs k = refl
