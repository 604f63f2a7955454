-- ===== src/FormData/Rounds.antt =====
-- The rounds of the loop of `separatorToPropertis` (auth_server_src/FormData.cpp).
use photogram.Prelude.{
  ℕ, zero, suc, ◌+◌, ◌-◌, ◌≤◌, ◌<◌, ◌≡◌, ◌≢◌, refl, ◌⊎◌, inl, inr, false, none, arith, length, ltb,
  Bool-cases, Option-cases, drop, length-drop, ◌==◌,
}
use photogram.Outcome.{ok, Outcome-cases}
use photogram.Text.{Bytes, npos, add_size, sub_size, find, find?}
use photogram.Text.Find.{find?-bound}
use photogram.FormData.{
  FormMaps, FormState, form_part, form_loop, form_start, separator_to_properties,
}

-- What `find` finds stands behind its start, inside the text.
pub find_bounds :
    (t p : Bytes) (start : ℕ)
    → (find t p start ≡ npos) ⊎ ((start ≤ find t p start) × (find t p start ≤ length t))
unfolding find
find_bounds t p start = elim (Bool-cases (ltb (length t) start)) [
  | inl e ↦ inl (rw e refl)
  | inr e ↦ elim (Option-cases (find? p (drop start t))) [
    | inl e' ↦ inl (rw (e, e') refl)
    | inr (i, e') ↦
        let b = find?-bound p (drop start t) i e' in
        let l = length-drop start t in
        let inside : start ≤ length t = ground arith in
        inr (rw (e, e') (omega arith, omega (arith, b, l)))
  ]
]

-- The length of a text stays below the greatest size_t, also with two separators and a line end more.
abbrev pub Room : Bytes → Bytes → Type 0
Room request separator = length request + (length separator + length separator) + 2 < npos

module _ (request separator : Bytes) (pos : 0 < length separator)
    (room : Room request separator) where
  next_bounds :
      (finish : ℕ)
      → finish ≤ length request + length separator + 2
      → (find request separator (add_size finish (length separator)) ≡ npos)
        ⊎ ((finish < find request separator (add_size finish (length separator)))
            × (find request separator (add_size finish (length separator)) ≤ length request))
  next_bounds finish low =
      let a : add_size finish (length separator) ≡ finish + length separator =
        omega (arith, low, room) in
      elim (find_bounds request separator (add_size finish (length separator))) [
        | inl e ↦ inl e
        | inr (b, c) ↦ inr (omega (arith, a, b, pos), c)
      ]

  form_loop-ends :
      (stale : Bytes → Bytes) (fuel finish : ℕ) (s : FormState)
      → finish ≤ length request + length separator + 2
      → length request - finish < fuel
      → form_loop stale request separator fuel finish s ≢ ok none
  unfolding form_loop
  form_loop-ends stale zero finish s low h = ground arith
  form_loop-ends stale (suc fuel) finish s low h =
      let finish' = find request separator (add_size finish (length separator)) in
      elim (next_bounds finish low) [
        | inl e ↦ rw e (λ q. cc q)
        | inr (b, c) ↦
            let no : (finish' == npos) ≡ false = ground (arith, c, room) in
            rw no (elim (Outcome-cases (form_part stale request finish' s)) [
              | inl (s', e) ↦ rw e (
                  form_loop-ends stale fuel finish'
                    (record s' {
                      start = add_size (sub_size (add_size finish' (length separator)) 1) 2;
                    })
                    (omega (arith, c)) (omega (arith, b, c, h)))
              | inr (inl (e', e)) ↦ rw e (λ q. cc q)
              | inr (inr e) ↦ rw e (λ q. cc q)
            ])
      ]

  -- With a separator that is not empty, and a request and a separator that leave room below `npos`, the
  -- loop over the parts of a form ends by itself, however the parts look: it never uses up its fuel.
  pub separator_to_properties-ends :
      (stale : Bytes → Bytes) (maps : FormMaps)
      → separator_to_properties stale request separator maps ≢ ok none
  unfolding separator_to_properties
  separator_to_properties-ends stale maps = elim (find_bounds request separator 0) [
    | inl e ↦ rw e (λ q. cc q)
    | inr (b, c) ↦
        let no : (find request separator 0 == npos) ≡ false = ground (arith, c, room) in
        rw no (
          form_loop-ends stale (length request + 1) (form_start request separator maps).start
            (form_start request separator maps) (omega (arith, c, room)) (omega arith))
  ]
