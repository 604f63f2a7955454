-- ===== src/Request/Url.antt =====
-- `URLParser`: where it cuts its text.
pub mod RoundTrip
use photogram.Prelude.{
  ℕ, ◌+◌, ◌-◌, ◌≤◌, ◌<◌, ◌≡◌, ◌≢◌, refl, subst, ap, ◌∙◌, ◌⊎◌, inl, inr, true, false, List, [], ◌∷◌,
  sym, ◌++◌, arith, length, All, Bool-cases, length-append, append_assoc, ◌==◌, if◌then◌else◌, drop,
  length-drop, drop-length_append, take, take-length_append, ltb-false,
}
use photogram.Outcome.{Exception, Outcome, ok, throw, undefined, runtime_error, ◌>>=◌}
use photogram.Text.{Bytes, npos, add_size, sub_size, substr}
use photogram.Text.StdMap.{StdMap, insert}
use photogram.Text.Find.{substr-seam}
use photogram.Request.{
  UrlState, url_start, store_property, url_step, url_loop, finish_url, url_parser,
}

-- The call returns a value with `P`, or throws "bad http".
abbrev Fine {ℓ} : {A : Type ℓ} → (A → Type 0) → Outcome A → Type 0
Fine P (ok a) = P a
Fine P (throw e) = e ≡ runtime_error "bad http"
Fine P undefined = ⊥

Fine-bind {ℓ κ} :
    {A : Type ℓ} {B : Type κ} (P : A → Type 0) (Q : B → Type 0) (m : Outcome A) (f : A → Outcome B)
    → Fine P m
    → ((a : A) → P a → Fine Q (f a))
    → Fine Q (m >>= f)
Fine-bind P Q (ok a) f h k = k a h
Fine-bind P Q (throw e) f h k = h
Fine-bind P Q undefined f h k = h

record IsInside (text : Bytes) (s : UrlState) : Type 0 where
  start_le : s.proper_start ≤ length text
  separator_lt : s.separator < length text

store_property_returns :
    (text : Bytes) (p : ℕ) (s : UrlState)
    → length text < npos
    → IsInside text s
    → (m : StdMap Bytes) × (store_property text p s ≡ ok m)
unfolding store_property substr
store_property_returns text p s small h =
    let a : add_size s.separator 1 ≡ s.separator + 1 = omega arith in
    rw
      (
        a,
        ltb-false (length text) (s.separator + 1) (omega arith),
        ltb-false (length text) s.proper_start h.start_le,
      )
      (_, refl)

url_step-IsInside :
    (text : Bytes) (p c : ℕ) (s : UrlState)
    → length text < npos
    → p < length text
    → IsInside text s
    → Fine (IsInside text) (url_step text p c s)
unfolding url_step
url_step-IsInside text p c s small inside h =
    let (m, e) = store_property_returns text p s small h in rw e (ground arith)

url_loop-IsInside :
    (text rest : Bytes) (p : ℕ) (s : UrlState)
    → length text < npos
    → length rest ≤ length text - p
    → IsInside text s
    → Fine (λ r. IsInside text r.1) (url_loop text rest p s)
unfolding url_loop
url_loop-IsInside text [] p s small fits h = h
url_loop-IsInside text (c ∷ rest) p s small fits h = elim (Bool-cases (c == b' ')) [
  | inl e ↦ rw e h
  | inr e ↦ rw e (
      Fine-bind (IsInside text) _ (url_step text p c s) _
        (url_step-IsInside text p c s small (omega arith) h)
        (λ s' h'. url_loop-IsInside text rest (p + 1) s' small (omega arith) h'))
]

finish_url-Fine :
    (text : Bytes) (r : ℕ × UrlState)
    → length text < npos
    → IsInside text r.1
    → Fine {A = StdMap Bytes} (λ _. Unit) (finish_url text r)
finish_url-Fine text r small h = let (m, e) = store_property_returns text r.0 r.1 small h in rw e tt

Fine-cases {ℓ} :
    {A : Type ℓ} (m : Outcome A)
    → Fine (λ _. Unit) m
    → ((a : A) × (m ≡ ok a)) ⊎ (m ≡ throw (runtime_error "bad http"))
Fine-cases (ok a) h = inl (a, refl)
Fine-cases (throw e) h = inr (ap throw h)
Fine-cases undefined h = absurd h

-- On every text that is shorter than `npos`, from every start, `URLParser` returns a map or throws
-- "bad http": no cut of it starts outside the text.
pub url_parser_safe :
    (text : Bytes) (result : StdMap Bytes) (start : ℕ)
    → length text < npos
    → ((m : StdMap Bytes) × (url_parser text result start ≡ ok m))
      ⊎ (url_parser text result start ≡ throw (runtime_error "bad http"))
unfolding url_parser
url_parser_safe [] result start small = inl (result, refl)
url_parser_safe (c ∷ text) result start small = Fine-cases _ (
    Fine-bind (λ r. IsInside (c ∷ text) r.1) _ _ (finish_url (c ∷ text))
      (url_loop-IsInside (c ∷ text) (drop start (c ∷ text)) start (url_start result) small
        (omega (arith, length-drop {0} start (c ∷ text))) (omega arith))
      (λ r h. finish_url-Fine (c ∷ text) r small h))
