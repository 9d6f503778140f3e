-- ===== src/Http/Conn/Chunks/Filling.antt =====
-- What the filling loop of src/http/conn.c ends with, and what is left of the buffer.
use platform_service.Common.{
  ℕ, zero, suc, ◌≤◌, ◌≡◌, refl, ◌⊎◌, inl, inr, List, [], ◌∷◌, ◌++◌, arith, Bytes, leb, leb→le,
  Bool-cases, length, drop,
}
use platform_service.Http.Request.Types.{
  ParseError, Request, Limits, ParseResult, parsed, incomplete, failed,
}
use platform_service.Http.Request.{parse}
use platform_service.Http.Request.Stability.{drop-prefix}
use platform_service.Http.Conn.{fill, slide}
use platform_service.Http.Conn.Types.{ReadOutcome, received, ready, rejected}

-- A verdict of the parser, which is kept.
pub parse-cases :
    (r : ParseResult)
    → ((req : Request) × (n : ℕ) × (r ≡ parsed req n))
      ⊎ (((r ≡ incomplete)) ⊎ ((kind : ParseError) × (r ≡ failed kind)))
parse-cases (parsed req n) = inl (req, n, refl)
parse-cases incomplete = inr (inl refl)
parse-cases (failed kind) = inr (inr (kind, refl))

pub fill-parsed :
    (limits : Limits) (reads : List ReadOutcome) (buf : Bytes) (req : Request) (n : ℕ)
    → parse limits buf ≡ parsed req n
    → fill limits reads buf ≡ ready req n buf reads
unfolding fill
fill-parsed limits [] buf req n h = rw (h, fill) refl
fill-parsed limits (r ∷ rs) buf req n h = rw (h, fill) refl

pub fill-failed :
    (limits : Limits) (reads : List ReadOutcome) (buf : Bytes) (kind : ParseError)
    → parse limits buf ≡ failed kind
    → fill limits reads buf ≡ rejected kind
unfolding fill
fill-failed limits [] buf kind h = rw (h, fill) refl
fill-failed limits (r ∷ rs) buf kind h = rw (h, fill) refl

pub fill-received :
    (limits : Limits) (reads : List ReadOutcome) (buf chunk : Bytes)
    → parse limits buf ≡ incomplete
    → fill limits (received chunk ∷ reads) buf ≡ fill limits reads (buf ++ chunk)
unfolding fill
fill-received limits reads buf chunk h = rw (h, fill) refl

drop-all : (n : ℕ) (xs : Bytes) → length xs ≤ n → drop n xs ≡ []
drop-all zero [] h = refl
drop-all zero (x ∷ xs) h = absurd (omega arith)
drop-all (suc n) [] h = refl
drop-all (suc n) (x ∷ xs) h = drop-all n xs (omega arith)

slide-drop : (n : ℕ) (buf : Bytes) → slide n buf ≡ drop n buf
unfolding slide
slide-drop n buf = elim (Bool-cases (leb (length buf) n)) [
  | inl all ↦ rw (all, drop-all n buf (leb→le _ _ all)) refl
  | inr some_left ↦ rw some_left refl
]

pub slide-append :
    (n : ℕ) (buf more : Bytes) → n ≤ length buf → slide n (buf ++ more) ≡ slide n buf ++ more
slide-append n buf more inside =
    rw (slide-drop n (buf ++ more), slide-drop n buf) (drop-prefix n buf more inside)
