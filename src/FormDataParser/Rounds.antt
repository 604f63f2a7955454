-- ===== src/FormDataParser/Rounds.antt =====
-- The rounds of the loop of `getContent` (content_server_src/FormDataParser/FormDataParser.cpp).
use photogram.Prelude.{
  ℕ, zero, suc, ◌+◌, ◌-◌, ◌≤◌, ◌<◌, ◌≡◌, ◌≢◌, ◌⊎◌, inl, inr, false, none, arith, length, ◌==◌,
}
use photogram.Outcome.{ok, Outcome-cases}
use photogram.Text.{Bytes, npos, add_size, sub_size, find}
use photogram.Text.StdMap.{StdMap}
use photogram.FormData.Rounds.{find_bounds}
use photogram.FormDataParser.{add_property, content_loop, content_parts}

module _ (body boundary : Bytes) (pos : 0 < length boundary)
    (room : length body + length boundary + 4 < npos) where
  content_loop-ends :
      (fuel start_p finish_p : ℕ) (output_collection : StdMap Bytes)
      → 0 < finish_p
      → finish_p ≤ length body
      → length body - finish_p < fuel
      → content_loop body boundary fuel start_p finish_p output_collection ≢ ok none
  unfolding content_loop
  content_loop-ends zero start_p finish_p output_collection some_p low h = ground arith
  content_loop-ends (suc fuel) start_p finish_p output_collection some_p low h =
      let finish = sub_size finish_p 1 in
      let start = add_size (add_size (add_size finish 1) (length boundary)) 2 in
      let next = find body boundary start in
      let a : start ≡ finish_p + length boundary + 2 = omega (arith, some_p, low, room) in
      elim (Outcome-cases (add_property body start_p finish output_collection)) [
        | inr (inl (x, e)) ↦ rw e (λ q. cc q)
        | inr (inr e) ↦ rw e (λ q. cc q)
        | inl (collection, e) ↦ rw e (elim (find_bounds body boundary start) [
          | inl d ↦ rw d (λ q. cc q)
          | inr (b, c) ↦
              let no : (next == npos) ≡ false = ground (arith, c, room) in
              rw no (
                content_loop-ends fuel start next collection (omega (arith, a, b)) c
                  (omega (arith, a, b, c, h)))
        ])
      ]

  -- The first round, whose end may be missing: the next one then begins behind a boundary's length.
  first_round-ends :
      (fuel start_p finish_p : ℕ) (output_collection : StdMap Bytes)
      → (finish_p ≡ npos) ⊎ ((0 < finish_p) × (finish_p ≤ length body))
      → length body + 1 < fuel
      → content_loop body boundary fuel start_p finish_p output_collection ≢ ok none
  first_round-ends fuel start_p finish_p output_collection (inr (some_p, low)) h =
      content_loop-ends fuel start_p finish_p output_collection some_p low (omega (arith, h))
  first_round-ends zero start_p finish_p output_collection (inl e) h = ground arith
  first_round-ends (suc fuel) start_p finish_p output_collection (inl e) h =
      unfold content_loop in
      (let finish = sub_size finish_p 1 in
        let start = add_size (add_size (add_size finish 1) (length boundary)) 2 in
        let next = find body boundary start in
        let a : start ≡ length boundary + 1 = omega (arith, e, room) in
        elim (Outcome-cases (add_property body start_p finish output_collection)) [
          | inr (inl (x, e)) ↦ rw e (λ q. cc q)
          | inr (inr e) ↦ rw e (λ q. cc q)
          | inl (collection, e) ↦ rw e (elim (find_bounds body boundary start) [
            | inl d ↦ rw d (λ q. cc q)
            | inr (b, c) ↦
                let no : (next == npos) ≡ false = ground (arith, c, room) in
                rw no (
                  content_loop-ends fuel start next collection (omega (arith, a, b)) c
                    (omega (arith, a, b, c, h)))
          ])
        ])

  -- With a boundary that is not empty, and a body and a boundary that leave room below `npos`, the loop
  -- over the parts of a form ends by itself, however the parts look and also where no boundary is in the
  -- body: it never uses up its fuel.
  pub content_parts-ends :
      (output_collection : StdMap Bytes) → content_parts body boundary output_collection ≢ ok none
  unfolding content_parts
  content_parts-ends output_collection =
      let first = find body boundary 0 in
      let start_p = add_size (add_size first (length boundary)) 2 in
      let begins : 0 < start_p = elim (find_bounds body boundary 0) [
        | inl e ↦ omega (arith, e, room, pos)
        | inr (b, c) ↦ omega (arith, c, room)
      ] in
      first_round-ends (length body + 2) start_p (find body boundary start_p) output_collection
        (elim (find_bounds body boundary start_p) [
          | inl e ↦ inl e
          | inr (b, c) ↦ inr (omega (arith, begins, b), c)
        ])
        (omega arith)
