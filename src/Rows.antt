-- ===== src/Rows.antt =====
-- Tables as lists of rows, with the WHERE clauses of the SQL statements of both servers.
use photogram.Prelude.{
  ℕ, zero, suc, take, drop, ◌≡◌, refl, ap, inl, inr, map, Bool-cases, Bool, true, false, ◌||◌, List,
  [], ◌∷◌, ◌++◌, arith, if◌then◌else◌,
}

module _ {ℓ} {A : Type ℓ} where
  abbrev pub any : (A → Bool) → List A → Bool
  any p [] = false
  any p (x ∷ xs) = p x || any p xs

  -- SELECT: the rows that fit.
  abbrev pub select_where : (A → Bool) → List A → List A
  select_where p [] = []
  select_where p (x ∷ xs) = let rest = select_where p xs in if p x then x ∷ rest else rest

  -- DELETE: the rows that do not fit stay.
  abbrev pub delete_where : (A → Bool) → List A → List A
  delete_where p [] = []
  delete_where p (x ∷ xs) = let rest = delete_where p xs in if p x then rest else x ∷ rest

  -- UPDATE: the rows that fit are changed.
  abbrev pub update_where : (A → Bool) → (A → A) → List A → List A
  update_where p f [] = []
  update_where p f (x ∷ xs) = (if p x then f x else x) ∷ update_where p f xs

  -- The number of rows that fit.
  abbrev pub count_where : (A → Bool) → List A → ℕ
  count_where p [] = 0
  count_where p (x ∷ xs) = let rest = count_where p xs in if p x then suc rest else rest

  pub any-append : (p : A → Bool) (xs : List A) (x : A) → any p (xs ++ x ∷ []) ≡ (any p xs || p x)
  any-append p [] x = ground arith
  any-append p (y ∷ xs) x = ground (arith, any-append p xs x)

  pub any-delete_self : (p : A → Bool) (xs : List A) → any p (delete_where p xs) ≡ false
  any-delete_self p [] = refl
  any-delete_self p (x ∷ xs) = ground (arith, any-delete_self p xs)

  -- A new row goes again, and nothing else with it.
  pub delete-append :
      (p : A → Bool) (xs : List A) (x : A)
      → any p xs ≡ false
      → p x ≡ true
      → delete_where p (xs ++ x ∷ []) ≡ xs
  delete-append p [] x none_fits fits = ground arith
  delete-append p (y ∷ xs) x none_fits fits = ground (arith, delete-append p xs x)

  -- An update that only a new row fits.
  pub update-append :
      (p : A → Bool) (f : A → A) (xs : List A) (x : A)
      → any p xs ≡ false
      → p x ≡ true
      → update_where p f (xs ++ x ∷ []) ≡ xs ++ f x ∷ []
  update-append p f [] x none_fits fits = rw fits refl
  update-append p f (y ∷ xs) x none_fits fits = elim (Bool-cases (p y)) [
    | inl e ↦ cc (rw e at none_fits)
    | inr e ↦ rw e (ap (λ l. y ∷ l) (update-append p f xs x (rw e at none_fits) fits))
  ]

  pub select-append :
      (p : A → Bool) (xs : List A) (x : A)
      → select_where p (xs ++ x ∷ [])
        ≡ (if p x then select_where p xs ++ x ∷ [] else select_where p xs)
  select-append p [] x = ground arith
  select-append p (y ∷ xs) x = ground (arith, select-append p xs x)

  select-none : (p : A → Bool) (xs : List A) → any p xs ≡ false → select_where p xs ≡ []
  select-none p [] h = refl
  select-none p (x ∷ xs) h = ground (arith, select-none p xs)

  -- A new row is the only one that fits.
  pub select-append_only :
      (p : A → Bool) (xs : List A) (x : A)
      → any p xs ≡ false
      → p x ≡ true
      → select_where p (xs ++ x ∷ []) ≡ x ∷ []
  select-append_only p xs x none_fits fits =
      rw (select-append p xs x, fits, select-none p xs none_fits) refl

  -- The rows that fit, behind an update that does not change which rows fit.
  pub select-update :
      (p q : A → Bool) (f : A → A) (xs : List A)
      → ((x : A) → p (f x) ≡ p x)
      → ((x : A) → p x ≡ true → q x ≡ true)
      → select_where p (update_where q f xs) ≡ map f (select_where p xs)
  select-update p q f [] same inside = refl
  select-update p q f (x ∷ xs) same inside = elim (Bool-cases (p x)) [
    | inl e ↦ rw (e, inside x e, same x, e) (ap (λ l. f x ∷ l) (select-update p q f xs same inside))
    | inr e ↦ elim (Bool-cases (q x)) [
      | inl d ↦ rw (e, d, same x, e) (select-update p q f xs same inside)
      | inr d ↦ rw (e, d, e) (select-update p q f xs same inside)
    ]
  ]

  pub select-update_other :
      (p q : A → Bool) (f : A → A) (xs : List A)
      → ((x : A) → p (f x) ≡ p x)
      → ((x : A) → p x ≡ true → q x ≡ false)
      → select_where p (update_where q f xs) ≡ select_where p xs
  select-update_other p q f [] same outside = refl
  select-update_other p q f (x ∷ xs) same outside = elim (Bool-cases (p x)) [
    | inl e ↦ rw (e, outside x e, e) (ap (λ l. x ∷ l) (select-update_other p q f xs same outside))
    | inr e ↦ elim (Bool-cases (q x)) [
      | inl d ↦ rw (e, d, same x, e) (select-update_other p q f xs same outside)
      | inr d ↦ rw (e, d, e) (select-update_other p q f xs same outside)
    ]
  ]

  pub any-take : (p : A → Bool) (n : ℕ) (xs : List A) → any p xs ≡ false → any p (take n xs) ≡ false
  any-take p zero xs h = refl
  any-take p (suc n) [] h = refl
  any-take p (suc n) (x ∷ xs) h = ground (arith, any-take p n xs)

  pub any-drop : (p : A → Bool) (n : ℕ) (xs : List A) → any p xs ≡ false → any p (drop n xs) ≡ false
  any-drop p zero xs h = h
  any-drop p (suc n) [] h = refl
  any-drop p (suc n) (x ∷ xs) h = ground (arith, any-drop p n xs)

  pub any-append_false :
      (p : A → Bool) (xs ys : List A)
      → any p xs ≡ false
      → any p ys ≡ false
      → any p (xs ++ ys) ≡ false
  any-append_false p [] ys h k = k
  any-append_false p (x ∷ xs) ys h k = ground (arith, any-append_false p xs ys)

  pub any-count_where : (p : A → Bool) (xs : List A) → any p xs ≡ false → count_where p xs ≡ 0
  any-count_where p [] h = refl
  any-count_where p (x ∷ xs) h = ground (arith, any-count_where p xs)

  pub count_where-any-false : (p : A → Bool) (xs : List A) → count_where p xs ≡ 0 → any p xs ≡ false
  count_where-any-false p [] h = refl
  count_where-any-false p (x ∷ xs) h = ground (arith, count_where-any-false p xs)

  pub select_where-same :
      (p q : A → Bool) (xs : List A) → ((x : A) → p x ≡ q x) → select_where p xs ≡ select_where q xs
  select_where-same p q [] h = refl
  select_where-same p q (x ∷ xs) h = ground (arith, h x, select_where-same p q xs h)

  pub count_where-append :
      (p : A → Bool) (xs : List A) (x : A)
      → count_where p (xs ++ x ∷ []) ≡ (if p x then suc (count_where p xs) else count_where p xs)
  count_where-append p [] x = refl
  count_where-append p (y ∷ xs) x = ground (arith, count_where-append p xs x)
