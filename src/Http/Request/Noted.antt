-- ===== src/Http/Request/Noted.antt =====
-- What the loop over the headers notes of them.
use platform_service.Common.{
  ℕ, zero, suc, ◌+◌, String, ◌≡◌, refl, sym, subst, inl, inr, Bool, true, false, ◌||◌, Option, none,
  some, List, [], ◌∷◌, ◌++◌, arith, Bytes, codes, leb, if◌then◌else◌, Bool-cases, Option-cases,
  length, take, drop,
}
use platform_service.Http.Request.Types.{Result, ok, err, ◌>>=◌, Header, Limits}
use platform_service.Http.Request.Lines.{crlf_from, ci_equal, parse_nonneg_decimal, header_line}
use platform_service.Http.Request.{
  max_headers, Framing, parse_headers, names, set_content_length, frame_header, add_header,
}

-- Whether a header has this name.
unfoldable pub mentions : String → List Header → Bool
mentions name [] = false
mentions name (h ∷ hs) = names h name || mentions name hs

-- The values of the Content-Length headers; `none` is a value that is no number.
unfoldable pub lengths : List Header → List (Option ℕ)
lengths [] = []
lengths (h ∷ hs) =
    let rest = lengths hs in
    if names h "Content-Length" then parse_nonneg_decimal h.value ∷ rest else rest

mentions-append :
    (name : String) (hs : List Header) (h : Header)
    → mentions name (hs ++ h ∷ []) ≡ (mentions name hs || names h name)
unfolding mentions
mentions-append name [] h = ground arith
mentions-append name (g ∷ hs) h = ground (arith, mentions-append name hs h)

lengths-append :
    (hs : List Header) (h : Header) → lengths (hs ++ h ∷ []) ≡ lengths hs ++ lengths (h ∷ [])
unfolding lengths
lengths-append [] h = refl
lengths-append (g ∷ hs) h = ground (arith, lengths-append hs h)

pub ci_equal-length : (xs ys : Bytes) → ci_equal xs ys ≡ true → length xs ≡ length ys
unfolding ci_equal
ci_equal-length [] [] e = refl
ci_equal-length [] (y ∷ ys) e = cc
ci_equal-length (x ∷ xs) [] e = cc
ci_equal-length (x ∷ xs) (y ∷ ys) e = ground (arith, ci_equal-length xs ys)

abbrev pub listed : Option ℕ → List (Option ℕ)
listed none = []
listed (some n) = some n ∷ []

-- The loop's notes agree with the headers.
pub record IsNoted (st : Framing) (hs : List Header) : Type 0 where
  pub coded : mentions "Transfer-Encoding" hs ≡ st.transfer_encoding
  pub sized : lengths hs ≡ listed st.content_length

frame_header-IsNoted :
    (st st2 : Framing) (hs : List Header) (h : Header)
    → IsNoted st hs
    → frame_header st h ≡ ok st2
    → (st2.headers ≡ st.headers) × IsNoted st2 (hs ++ h ∷ [])
unfolding frame_header set_content_length lengths
frame_header-IsNoted st st2 hs h noted e = elim (Bool-cases (names h "Content-Length")) [
  | inl sized ↦ elim (Bool-cases (names h "Transfer-Encoding")) [
    | inl coded ↦
        let a = ci_equal-length h.name (codes "Content-Length") sized in
        let b = ci_equal-length h.name (codes "Transfer-Encoding") coded in
        absurd (omega (arith, a, b))
    | inr other ↦ elim (Option-cases st.content_length) [
      | inl first ↦ elim (Option-cases (parse_nonneg_decimal h.value)) [
        | inl bad ↦ cc (rw (sized, first, bad) at e)
        | inr (v, good) ↦
            let e2 = rw (sized, first, good) at e in
            ground (
              arith,
              mentions-append "Transfer-Encoding" hs h,
              lengths-append hs h,
              noted.coded,
              noted.sized,
            )
      ]
      | inr (n, second) ↦ cc (rw (sized, second) at e)
    ]
  ]
  | inr other ↦ elim (Bool-cases (names h "Transfer-Encoding")) [
    | inl coded ↦ ground (
      arith,
      mentions-append "Transfer-Encoding" hs h,
      lengths-append hs h,
      noted.coded,
      noted.sized,
    )
    | inr plain ↦ ground (
      arith,
      mentions-append "Transfer-Encoding" hs h,
      lengths-append hs h,
      noted.coded,
      noted.sized,
    )
  ]
]

add_header-IsNoted :
    (limits : Limits) (st st2 : Framing) (h : Header)
    → IsNoted st st.headers
    → add_header limits st h ≡ ok st2
    → IsNoted st2 st2.headers
unfolding add_header
add_header-IsNoted limits st st2 h noted e =
    elim (Bool-cases
      (leb max_headers (length st.headers) || leb limits.max_header_count (length st.headers))) [
        | inl full ↦ cc (rw full at e)
        | inr room ↦
            let step =
              frame_header-IsNoted (record st { headers = st.headers ++ h ∷ [] }) st2 st.headers h
                (record { coded = noted.coded; sized = noted.sized }) (rw room at e) in
            subst (λ hs. IsNoted st2 hs) (sym step.0) step.1
      ]

pub parse_headers-IsNoted :
    (fuel : ℕ) (limits : Limits) (block : Bytes) (st st2 : Framing)
    → IsNoted st st.headers
    → parse_headers fuel limits block st ≡ ok st2
    → IsNoted st2 st2.headers
unfolding parse_headers
parse_headers-IsNoted zero limits block st st2 noted e = cc
parse_headers-IsNoted (suc fuel) limits [] st st2 noted e = ground (arith, noted.coded, noted.sized)
parse_headers-IsNoted (suc fuel) limits (c ∷ cs) st st2 noted e =
    elim (Option-cases (crlf_from (c ∷ cs) 0)) [
      | inl missing ↦ cc (rw (missing, parse_headers) at e)
      | inr (k, found) ↦
          let rest = drop (k + 2) (c ∷ cs) in
          behind (parse_headers fuel limits rest)
            (λ st3 noted3 e3. parse_headers-IsNoted fuel limits rest st3 st2 noted3 e3)
            (header_line (take k (c ∷ cs))) (rw (found, parse_headers) at e)
    ]
  where
    next :
        (loop : Framing → Result Framing) (r : Result Framing)
        → ((st3 : Framing) → IsNoted st3 st3.headers → loop st3 ≡ ok st2 → IsNoted st2 st2.headers)
        → ((st3 : Framing) → r ≡ ok st3 → IsNoted st3 st3.headers)
        → (r >>= loop) ≡ ok st2
        → IsNoted st2 st2.headers
    next loop (err x) later noted3 e3 = cc
    next loop (ok st3) later noted3 e3 = later st3 (noted3 st3 refl) e3

    behind :
        (loop : Framing → Result Framing)
        → ((st3 : Framing) → IsNoted st3 st3.headers → loop st3 ≡ ok st2 → IsNoted st2 st2.headers)
        → (r : Result Header) → ((r >>= add_header limits st) >>= loop) ≡ ok st2
        → IsNoted st2 st2.headers
    behind loop later (err x) e3 = cc
    behind loop later (ok h) e3 =
        next loop (add_header limits st h) later
          (λ st3 e4. add_header-IsNoted limits st st3 h noted e4) e3
