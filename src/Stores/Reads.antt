-- ===== src/Stores/Reads.antt =====
-- What a reader of a remote entry reads.
use go_iroh_experiments.Base.{
  ℕ, zero, suc, ◌+◌, ◌-◌, ◌≤◌, ◌<◌, ◌≡◌, refl, ap, ◌∙◌, true, List, [], ◌∷◌, none, some, inl, inr,
  leb, ==_iff, arith, length, length-take, length-drop, take, drop, Bytes, Bool-cases,
}
use go_iroh_experiments.Go.Int.{ℤ, pos, negsuc}
use go_iroh_experiments.Stores.Http.{Api, Client, get, Response, read_full, read_bytes}
use go_iroh_experiments.Stores.Xet.{HttpReaderAt, finished, last_byte, read_range, read_at}
use go_iroh_experiments.Stores.Texts.{authorization}

take-take {ℓ} : {A : Type ℓ} (n : ℕ) (xs : List A) → take n (take n xs) ≡ take n xs
take-take zero xs = refl
take-take (suc n) [] = refl
take-take (suc n) (x ∷ xs) = ap (◌∷◌ x) (take-take n xs)

take_all {ℓ} : {A : Type ℓ} (n : ℕ) (xs : List A) → length xs ≤ n → take n xs ≡ xs
take_all zero [] h = refl
take_all zero (x ∷ xs) h = absurd (omega arith)
take_all (suc n) [] h = refl
take_all (suc n) (x ∷ xs) h = ap (◌∷◌ x) (take_all n xs (omega arith))

-- The server of an object answers a range of it with status 206 and the bytes of the range.
abbrev pub ServesRanges : Client → Bytes → Bytes → Bytes → Type 0
ServesRanges client url token content =
    (start end : ℕ)
    → start ≤ end
    → end < length content
    → (r : Response) × (client (record {
      method = get;
      url = url;
      range = some (start, end);
      authorization = authorization token;
    })
        ≡ some r)
      × (r.status ≡ 206)
      × (r.body ≡ take (end - start + 1) (drop start content))

read_full-take :
    (k : ℕ) (xs : Bytes) (r : Response)
    → r.body ≡ take k xs
    → k ≤ length xs
    → read_full k r ≡ (take k xs, none)
unfolding read_full
read_full-take k xs r e h = rw e (ground (arith, take-take k xs, length-take k xs))

module _ (api : Api) where
  read_range-answered :
      (r : HttpReaderAt) (content : Bytes) (n start : ℕ)
      → api.is_request r.url ≡ true
      → ServesRanges r.client r.url r.token content
      → start ≤ last_byte r.size n start
      → last_byte r.size n start < length content
      → read_range api r n start
        ≡ finished api n (take (last_byte r.size n start - start + 1) (drop start content), none)
  unfolding read_range
  read_range-answered r content n start request serves order inside =
      let end = last_byte r.size n start in
      let (resp, done, partial, body) = serves start end order inside in
      let room : end - start + 1 ≤ length (drop start content) =
        omega (arith, length-drop start content) in
      rw (request, done, read_range, (==_iff resp.status 206).1 partial)
        (ap (finished api n) (read_full-take (end - start + 1) (drop start content) resp body room))

  read_range-content :
      (r : HttpReaderAt) (content : Bytes) (n start : ℕ)
      → r.size ≡ length content
      → api.is_request r.url ≡ true
      → ServesRanges r.client r.url r.token content
      → 0 < n
      → start < length content
      → read_range api r n start ≡ read_bytes content n (pos start)
  unfolding last_byte read_bytes finished
  read_range-content r content n start size request serves some_left inside =
      let rest = drop start content in
      let left : length rest ≡ length content - start = length-drop start content in
      elim (Bool-cases (leb (length content) (start + n - 1))) [
        | inl past ↦
            let end : last_byte r.size n start ≡ length content - 1 = ground arith in
            let all : length content - 1 - start + 1 ≡ length rest = omega arith in
            read_range-answered r content n start request serves (omega arith) (omega arith)
            ∙ rw (end, all, take_all (length rest) rest (omega arith))
                (ground (arith, take_all n rest))
        | inr within ↦
            let end : last_byte r.size n start ≡ start + n - 1 = ground arith in
            let all : start + n - 1 - start + 1 ≡ n = omega arith in
            read_range-answered r content n start request serves (omega arith) (ground arith)
            ∙ rw (end, all) (ground (arith, length-take n rest))
      ]

  read_at-range :
      (r : HttpReaderAt) (n off : ℕ)
      → 0 < n
      → off < r.size
      → read_at api r n (pos off) ≡ read_range api r n off
  unfolding read_at
  read_at-range r n off some_left inside = ground arith

  -- A read of some bytes at any offset, from a remote reader of an object whose server answers
  -- ranges, gets the same bytes and the same error as a read from the content in memory.
  pub read_at-content :
      (r : HttpReaderAt) (content : Bytes) (n : ℕ) (off : ℤ)
      → r.size ≡ length content
      → api.is_request r.url ≡ true
      → ServesRanges r.client r.url r.token content
      → 0 < n
      → read_at api r n off ≡ read_bytes content n off
  unfolding read_at read_bytes
  read_at-content r content n (negsuc k) size request serves some_left = refl
  read_at-content r content n (pos off) size request serves some_left =
      elim (Bool-cases (leb (length content) off)) [
        | inl past ↦ ground arith
        | inr inside ↦
            read_at-range r n off (omega arith) (ground arith)
            ∙ read_range-content r content n off size request serves some_left (ground arith)
      ]
