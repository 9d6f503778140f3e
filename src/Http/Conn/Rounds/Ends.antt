-- ===== src/Http/Conn/Rounds/Ends.antt =====
-- How many outcomes the connection loop of src/http/conn.c looks at.
use platform_service.Common.{
  ℕ, zero, suc, ◌+◌, ◌-◌, ◌*◌, ◌≤◌, ◌<◌, ◌≡◌, refl, sym, ap, ◌∙◌, subst, inl, inr, false, List, [],
  ◌∷◌, ◌++◌, arith, Bytes, leb, Bool-cases, length, length-append,
}
use platform_service.Http.Request.Types.{Limits, Request, incomplete}
use platform_service.Http.Request.{parse}
use platform_service.Http.Request.Bounds.{InBounds, parse-InBounds}
use platform_service.Http.Conn.{fill, slide, read_more, serve}
use platform_service.Http.Conn.Types.{
  ReadOutcome, received, timed_out, poll_failed, zero_return, broken, read_failed, closed, Output,
  Fill, ready, rejected, gone, Setup, Serving,
}
use platform_service.Http.Conn.Chunks.{
  at_buffer, onward, ready-alike, answer_fill_rest, round_full, serve_next,
}
use platform_service.Http.Conn.Chunks.Filling.{parse-cases, fill-parsed, fill-failed, fill-received}

-- `SSL_read` that returns bytes returns one at least.
abbrev pub AllArrive : List ReadOutcome → Type 0
AllArrive [] = Unit {0}
AllArrive (received chunk ∷ rs) = (0 < length chunk) × AllArrive rs
AllArrive (timed_out ∷ rs) = AllArrive rs
AllArrive (poll_failed ∷ rs) = AllArrive rs
AllArrive (zero_return ∷ rs) = AllArrive rs
AllArrive (broken ∷ rs) = AllArrive rs
AllArrive (read_failed ∷ rs) = AllArrive rs

-- The buffer is shorter than this where the parser asks for more.
unfoldable pub most_bytes : Limits → ℕ
most_bytes limits =
    limits.max_request_line_bytes + limits.max_header_bytes + 2 + limits.max_body_bytes

incomplete_is_short :
    (limits : Limits) (buf : Bytes) → parse limits buf ≡ incomplete → length buf < most_bytes limits
unfolding most_bytes
incomplete_is_short limits buf e = subst (InBounds limits buf _) e (parse-InBounds limits buf)

-- The filling loop ends within these outcomes, whatever comes behind them, and leaves all but a
-- bounded number of them.
data Decided (limits : Limits) (reads : List ReadOutcome) (buf : Bytes) : Type 0 where
  over :
      (f : Fill)
      → ((later : List ReadOutcome) → fill limits (reads ++ later) buf ≡ f)
      → Decided limits reads buf
  request :
      (req : Request) (n : ℕ) (buf' : Bytes) (rest : List ReadOutcome)
      → AllArrive rest
      → length reads ≤ length rest + (most_bytes limits - length buf)
      → ((later : List ReadOutcome)
          → fill limits (reads ++ later) buf ≡ ready req n buf' (rest ++ later))
      → Decided limits reads buf

fill-closed :
    (limits : Limits) (r : ReadOutcome) (rs : List ReadOutcome) (buf : Bytes) (reason : _)
    → parse limits buf ≡ incomplete
    → read_more r buf ≡ closed reason
    → fill limits (r ∷ rs) buf ≡ gone reason
unfolding fill
fill-closed limits r rs buf reason e c = rw (e, fill, c) refl

Decided_received :
    (limits : Limits) (chunk : Bytes) (rs : List ReadOutcome) (buf : Bytes)
    → parse limits buf ≡ incomplete
    → 0 < length chunk
    → Decided limits rs (buf ++ chunk)
    → Decided limits (received chunk ∷ rs) buf
Decided_received limits chunk rs buf e pos (over f h) =
    over f (λ later. fill-received limits (rs ++ later) buf chunk e ∙ h later)
Decided_received limits chunk rs buf e pos (request req n buf' rest arrive few h) =
    request req n buf' rest arrive
      (omega (arith, length-append buf chunk, incomplete_is_short limits buf e))
      (λ later. fill-received limits (rs ++ later) buf chunk e ∙ h later)

Decided_unless_incomplete :
    (limits : Limits) (reads : List ReadOutcome) (buf : Bytes)
    → AllArrive reads
    → (parse limits buf ≡ incomplete → Decided limits reads buf)
    → Decided limits reads buf
Decided_unless_incomplete limits reads buf arrive more = elim (parse-cases (parse limits buf)) [
  | inl (req, n, e) ↦
      request req n buf reads arrive (omega arith)
        (λ later. fill-parsed limits (reads ++ later) buf req n e)
  | inr (inr (kind, e)) ↦
      over (rejected kind) (λ later. fill-failed limits (reads ++ later) buf kind e)
  | inr (inl e) ↦ more e
]

fill-Decided :
    (limits : Limits) (reads : List ReadOutcome) (buf : Bytes)
    → AllArrive reads
    → most_bytes limits ≤ length reads + length buf
    → Decided limits reads buf
unfolding read_more
fill-Decided limits [] buf arrive enough =
    Decided_unless_incomplete limits [] buf arrive
      (λ e. absurd (omega (arith, incomplete_is_short limits buf e)))
fill-Decided limits (received c ∷ rs) buf arrive enough =
    Decided_unless_incomplete limits (received c ∷ rs) buf arrive (λ e.
      Decided_received limits c rs buf e arrive.0
        (fill-Decided limits rs (buf ++ c) arrive.1 (omega (arith, length-append buf c))))
fill-Decided limits (timed_out ∷ rs) buf arrive enough =
    Decided_unless_incomplete limits (timed_out ∷ rs) buf arrive
      (λ e. over (gone _) (λ later. fill-closed limits timed_out (rs ++ later) buf _ e refl))
fill-Decided limits (poll_failed ∷ rs) buf arrive enough =
    Decided_unless_incomplete limits (poll_failed ∷ rs) buf arrive
      (λ e. over (gone _) (λ later. fill-closed limits poll_failed (rs ++ later) buf _ e refl))
fill-Decided limits (zero_return ∷ rs) buf arrive enough =
    Decided_unless_incomplete limits (zero_return ∷ rs) buf arrive
      (λ e. over (gone _) (λ later. fill-closed limits zero_return (rs ++ later) buf _ e refl))
fill-Decided limits (broken ∷ rs) buf arrive enough =
    Decided_unless_incomplete limits (broken ∷ rs) buf arrive
      (λ e. over (gone _) (λ later. fill-closed limits broken (rs ++ later) buf _ e refl))
fill-Decided limits (read_failed ∷ rs) buf arrive enough =
    Decided_unless_incomplete limits (read_failed ∷ rs) buf arrive
      (λ e. over (gone _) (λ later. fill-closed limits read_failed (rs ++ later) buf _ e refl))

module _ {F S : Type 0} (setup : Setup F S) where
  -- With so many outcomes for each request that is left, those behind them make no difference.
  pub serve_decided :
      (fuel completed left : ℕ) (app : S) (sent : List Output) (buf : Bytes)
      (reads later later' : List ReadOutcome)
      → AllArrive reads
      → setup.limits.keepalive_max_requests ≤ completed + left
      → left * most_bytes setup.limits.http_limits ≤ length reads
      → serve setup fuel (at_buffer setup app completed sent buf (reads ++ later))
        ≡ serve setup fuel (at_buffer setup app completed sent buf (reads ++ later'))
  unfolding serve
  serve_decided zero completed left app sent buf reads later later' arrive room enough = refl
  serve_decided (suc fuel) completed zero app sent buf reads later later' arrive room enough =
      ap (onward setup fuel) (
        round_full setup completed app sent buf (reads ++ later) buf (reads ++ later')
          (ground arith))
  serve_decided (suc fuel) completed (suc left) app sent buf reads later later' arrive room enough =
      elim (Bool-cases (leb setup.limits.keepalive_max_requests completed)) [
        | inl full ↦
            ap (onward setup fuel)
              (round_full setup completed app sent buf (reads ++ later) buf (reads ++ later') full)
        | inr open_ ↦
            goes_on open_ (fill-Decided setup.limits.http_limits reads buf arrive (omega arith))
              (λ app' sent' buf' rest arrive' enough'.
                serve_decided fuel (completed + 1) left app' sent' buf' rest later later' arrive'
                  (omega arith) enough')
      ]
    where
      st : List ReadOutcome → Serving S
      st more = at_buffer setup app completed sent buf (reads ++ more)

      goes_on :
          leb setup.limits.keepalive_max_requests completed ≡ false
          → Decided setup.limits.http_limits reads buf
          → ((app' : S) (sent' : List Output) (buf' : Bytes) (rest : List ReadOutcome)
              → AllArrive rest
              → left * most_bytes setup.limits.http_limits ≤ length rest
              → serve setup fuel (at_buffer setup app' (completed + 1) sent' buf' (rest ++ later))
                ≡ serve setup fuel
                    (at_buffer setup app' (completed + 1) sent' buf' (rest ++ later')))
          → serve setup (suc fuel) (st later) ≡ serve setup (suc fuel) (st later')
      goes_on open_ (over f h) same =
          serve_next setup fuel (st later) f open_ (h later)
          ∙ ap (onward setup fuel) (
              answer_fill_rest setup completed app sent buf buf (reads ++ later) (reads ++ later')
                f)
          ∙ sym (serve_next setup fuel (st later') f open_ (h later'))
      goes_on open_ (request req n buf' rest arrive' few h) same =
          serve_next setup fuel (st later) _ open_ (h later)
          ∙ ready-alike setup fuel completed app sent buf' buf' (rest ++ later) (rest ++ later') buf
              buf (reads ++ later) (reads ++ later') req n
              (λ app' sent'. same app' sent' (slide n buf') rest arrive' (omega arith))
          ∙ sym (serve_next setup fuel (st later') _ open_ (h later'))
