-- ===== src/Request/Url/RoundTrip.antt =====
-- `URLParser` on a query string that was written from its pairs.
use photogram.Prelude.{
  ℕ, ◌+◌, ◌<◌, ◌≡◌, ◌≢◌, refl, subst, ap, ◌∙◌, false, List, [], ◌∷◌, ◌++◌, arith, length, All,
  length-append, append_assoc, ◌==◌, drop, drop-length_append, take-length_append,
}
use photogram.Outcome.{ok, ◌>>=◌}
use photogram.Text.{Bytes, npos, add_size, sub_size, substr}
use photogram.Text.StdMap.{StdMap, insert}
use photogram.Text.Find.{substr-seam}
use photogram.Request.{
  UrlState, url_start, store_property, url_step, url_loop, finish_url, url_parser,
}

-- A byte that the loop passes over.
abbrev pub Plain : ℕ → Type 0
Plain d = (d ≢ b' ') × (d ≢ b'?') × (d ≢ b'=') × (d ≢ b'&')

url_loop-Plain :
    (text a rest : Bytes) (p : ℕ) (s : UrlState)
    → All Plain a
    → url_loop text (a ++ rest) p s ≡ url_loop text rest (p + length a) s
unfolding url_loop url_step
url_loop-Plain text [] rest p s h = ap (λ n. url_loop text rest n s) (omega arith)
url_loop-Plain text (d ∷ a) rest p s ((n1, n2, n3, n4), h) =
    let e1 : (d == b' ') ≡ false = ground arith in
    let e2 : (d == b'?') ≡ false = ground arith in
    let e3 : (d == b'=') ≡ false = ground arith in
    let e4 : (d == b'&') ≡ false = ground arith in
    rw (e1, e2, e3, e4)
      (url_loop-Plain text a rest (p + 1) s h ∙ ap (λ n. url_loop text rest n s) (omega arith))

-- `key=value`, and what follows it.
abbrev pub pair_text : Bytes → Bytes → Bytes → Bytes
pair_text key value rest = key ++ (b'=' ∷ (value ++ rest))

url_loop-pair :
    (text key value rest : Bytes) (p : ℕ) (s : UrlState)
    → All Plain key
    → All Plain value
    → url_loop text (pair_text key value rest) p s
      ≡ url_loop text rest
          (p + length key + 1 + length value)
          (record s { separator = p + length key })
unfolding url_loop url_step
url_loop-pair text key value rest p s hk hv =
    url_loop-Plain text key (b'=' ∷ (value ++ rest)) p s hk
    ∙ url_loop-Plain text value rest (p + length key + 1) (record s { separator = p + length key })
        hv

store_property-pair :
    (done key value rest : Bytes) (result : StdMap Bytes)
    → length (done ++ pair_text key value rest) < npos
    → store_property
        (done ++ pair_text key value rest)
        (length done + length key + 1 + length value)
        (record {
          proper_start = length done;
          separator = length done + length key;
          result = result;
        })
      ≡ ok (insert key value result)
unfolding store_property
store_property-pair done key value rest result small =
    let sizes = length-append done (pair_text key value rest) in
    let sizes' = length-append key (b'=' ∷ (value ++ rest)) in
    let sizes'' = length-append value rest in
    let front = done ++ (key ++ b'=' ∷ []) in
    let front_size : length front ≡ length done + length key + 1 =
      omega (arith, length-append {0} done (key ++ b'=' ∷ []), length-append {0} key (b'=' ∷ [])) in
    let regroup : done ++ pair_text key value rest ≡ front ++ (value ++ rest) = simp append_assoc in
    let a : add_size (length done + length key) 1 ≡ length done + length key + 1 = omega arith in
    let n : sub_size (length done + length key + 1 + length value) (length done + length key + 1)
        ≡ length value =
      omega arith in
    let m : sub_size (length done + length key) (length done) ≡ length key = omega arith in
    let value_cut : substr (done ++ pair_text key value rest) (length done + length key + 1)
          (length value)
        ≡ ok value =
      rw (regroup, ← front_size, substr-seam) (ap ok (take-length_append value rest)) in
    let key_cut : substr (done ++ pair_text key value rest) (length done) (length key) ≡ ok key =
      rw substr-seam (ap ok (take-length_append key _)) in
    rw (a, n, value_cut, m, key_cut)

-- A query string of one pair and more, up to the space behind it.
abbrev pub query_text : Bytes → Bytes → List (Bytes × Bytes) → Bytes → Bytes
query_text key value [] tail = pair_text key value (b' ' ∷ tail)
query_text key value ((key', value') ∷ pairs) tail =
    pair_text key value (b'&' ∷ query_text key' value' pairs tail)

-- The pairs, stored in the map from the left.
abbrev pub insert_pairs : Bytes → Bytes → List (Bytes × Bytes) → StdMap Bytes → StdMap Bytes
insert_pairs key value [] result = insert key value result
insert_pairs key value ((key', value') ∷ pairs) result =
    insert_pairs key' value' pairs (insert key value result)

abbrev pub PlainPairs : List (Bytes × Bytes) → Type 0
PlainPairs = All (λ pair. All Plain pair.0 × All Plain pair.1)

url_step-ampersand :
    (text : Bytes) (p start sep : ℕ) (result stored : StdMap Bytes)
    → 0 < start
    → 0 < sep
    → store_property text p (record { proper_start = start; separator = sep; result = result })
      ≡ ok stored
    → url_step text p b'&' (record { proper_start = start; separator = sep; result = result })
      ≡ ok (record { proper_start = p + 1; separator = sep; result = stored })
unfolding url_step
url_step-ampersand text p start sep result stored a b h =
    let e1 : (start == 0) ≡ false = ground arith in
    let e2 : (sep == 0) ≡ false = ground arith in rw (e1, e2, h)

url_loop-query :
    (text done key value : Bytes) (pairs : List (Bytes × Bytes)) (tail : Bytes) (sep : ℕ)
    (result : StdMap Bytes)
    → text ≡ done ++ query_text key value pairs tail
    → length text < npos
    → 0 < length done
    → All Plain key
    → All Plain value
    → PlainPairs pairs
    → (url_loop text
          (query_text key value pairs tail)
          (length done)
          (record { proper_start = length done; separator = sep; result = result })
        >>= finish_url text)
      ≡ ok (insert_pairs key value pairs result)
unfolding url_loop
url_loop-query text done key value [] tail sep result e small pos hk hv hs =
    rw (url_loop-pair text key value (b' ' ∷ tail) (length done) _ hk hv, e)
      (store_property-pair done key value (b' ' ∷ tail) result
        (subst (λ t. length t < npos) e small))
url_loop-query text done key value ((key', value') ∷ pairs) tail sep result e small pos hk hv
      ((hk', hv'), hs) =
    let p : ℕ = length done + length key + 1 + length value in
    let done' = done ++ pair_text key value (b'&' ∷ []) in
    let size : length done' ≡ p + 1 = omega (
      arith,
      length-append {0} done (pair_text key value (b'&' ∷ [])),
      length-append {0} key (b'=' ∷ (value ++ b'&' ∷ [])),
      length-append {0} value (b'&' ∷ []),
    ) in
    let regroup : text ≡ done' ++ query_text key' value' pairs tail = e ∙ (simp append_assoc) in
    let stored : store_property text p (record {
      proper_start = length done;
      separator = length done + length key;
      result = result;
    })
        ≡ ok (insert key value result) =
      rw e (
        store_property-pair done key value (b'&' ∷ query_text key' value' pairs tail) result
          (subst (λ t. length t < npos) e small)) in
    let go =
      url_loop-query text done' key' value' pairs tail (length done + length key)
        (insert key value result) regroup small (omega (arith, size)) hk' hv' hs in
    rw
      (
        url_loop-pair text key value (b'&' ∷ query_text key' value' pairs tail) (length done) _ hk
            hv,
        url_step-ampersand text p (length done) (length done + length key) result _ pos
            (omega arith) stored,
      )
      (rw size at go)

url_parser-nonempty :
    (text : Bytes) (result : StdMap Bytes) (start : ℕ)
    → 0 < length text
    → url_parser text result start
      ≡ (url_loop text (drop start text) start (url_start result) >>= finish_url text)
unfolding url_parser
url_parser-nonempty [] result start h = elim h [ ]
url_parser-nonempty (c ∷ text) result start h = refl

url_loop-question :
    (text rest : Bytes) (p : ℕ) (result : StdMap Bytes)
    → url_loop text (b'?' ∷ rest) p (url_start result)
      ≡ url_loop text rest (p + 1) (record { proper_start = p + 1; separator = 0; result = result })
unfolding url_loop url_step
url_loop-question text rest p result = refl

-- `URLParser`, started anywhere in the path before the question mark, reads from
-- `path?key=value&key=value ...` the map that holds the pairs, where the path behind the start and
-- the names and values hold no space, `?`, `=` or `&`, and the text is shorter than `npos`.
pub url_parser-query_text :
    (before path key value : Bytes) (pairs : List (Bytes × Bytes)) (tail : Bytes)
    (result : StdMap Bytes)
    → All Plain path
    → All Plain key
    → All Plain value
    → PlainPairs pairs
    → length (before ++ (path ++ (b'?' ∷ query_text key value pairs tail))) < npos
    → url_parser
        (before ++ (path ++ (b'?' ∷ query_text key value pairs tail)))
        result
        (length before)
      ≡ ok (insert_pairs key value pairs result)
url_parser-query_text before path key value pairs tail result hp hk hv hs small =
    let query = query_text key value pairs tail in
    let text = before ++ (path ++ (b'?' ∷ query)) in
    let done = before ++ (path ++ (b'?' ∷ [])) in
    let a = length-append before (path ++ (b'?' ∷ query)) in
    let b = length-append path (b'?' ∷ query) in
    let size : length done ≡ length before + length path + 1 =
      omega (
        arith,
        length-append {0} before (path ++ (b'?' ∷ [])),
        length-append {0} path (b'?' ∷ []),
      ) in
    let regroup : text ≡ done ++ query = simp append_assoc in
    rw
      (
        url_parser-nonempty text result (length before) (omega (arith, a, b)),
        drop-length_append,
        url_loop-Plain text path (b'?' ∷ query) (length before) (url_start result) hp,
        url_loop-question,
        ← size,
      )
      (url_loop-query text done key value pairs tail 0 result regroup small (omega (arith, size)) hk
        hv hs)
