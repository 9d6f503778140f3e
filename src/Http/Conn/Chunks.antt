-- ===== src/Http/Conn/Chunks.antt =====
-- How the bytes are cut into reads makes no difference to the connection loop of src/http/conn.c.
pub mod Filling
use platform_service.Common.{
  ℕ, zero, suc, ◌+◌, ◌≤◌, ◌≡◌, refl, sym, ap, ◌∙◌, subst, ◌⊎◌, inl, inr, Bool, true, false, not,
  ◌||◌, Option, none, some, List, [], ◌∷◌, ◌++◌, append_assoc, append-nil, arith, Bytes, leb, ◌==◌,
  if◌then◌else◌, leb→le, Bool-cases, length, drop,
}
use platform_service.Http.Request.Types.{
  ParseError, Request, Limits, ParseResult, parsed, incomplete, failed,
}
use platform_service.Http.Request.{parse}
use platform_service.Http.Request.Bounds.{InBounds, parse-InBounds}
use platform_service.Http.Request.Stability.{drop-prefix, parse_stable}
use platform_service.Http.Conn.{
  fill, slide, written, deliver, answer, answer_fill, round, serve, conn_handle, stay_alive,
}
use platform_service.Http.Conn.Types.{
  ReadOutcome, received, closed_error, Output, Fill, ready, rejected, gone, Setup, Serving, Served,
  ended, next, Round,
}
use platform_service.Http.Conn.Chunks.Filling.{
  parse-cases, fill-parsed, fill-failed, fill-received, slide-append,
}

-- Chunks of bytes that arrive, and then other outcomes.
unfoldable pub arriving : List Bytes → List ReadOutcome → List ReadOutcome
arriving [] later = later
arriving (c ∷ cs) later = received c ∷ arriving cs later

-- The bytes of chunks in their order.
unfoldable pub joined : List Bytes → Bytes
joined [] = []
joined (c ∷ cs) = c ++ joined cs

module _ {F S : Type 0} (setup : Setup F S) where
  abbrev pub at_buffer : S → ℕ → List Output → Bytes → List ReadOutcome → Serving S
  at_buffer app completed sent buf reads = record {
    app = app;
    completed = completed;
    readbuf = buf;
    reads = reads;
    sent = sent;
  }

  abbrev pub onward : ℕ → Round S → Option (Served S)
  onward fuel r = elim r [ ended served ↦ some served | next st ↦ serve setup fuel st ]

  -- Two connections that go on alike behind a response do so from before it.
  written-alike :
      (fuel n completed : ℕ) (app : S) (sent : List Output) (buf buf' : Bytes)
      (reads reads' : List ReadOutcome) (alive : Bool) (out : Bytes) (short : Option ℕ)
      → ((sent' : List Output)
          → serve setup fuel (at_buffer app (completed + 1) sent' (slide n buf) reads)
            ≡ serve setup fuel (at_buffer app (completed + 1) sent' (slide n buf') reads'))
      → onward fuel (written setup (at_buffer app completed sent buf reads) n alive out short)
        ≡ onward fuel (written setup (at_buffer app completed sent buf' reads') n alive out short)
  unfolding written
  written-alike fuel n completed app sent buf buf' reads reads' alive out (some k) same = refl
  written-alike fuel n completed app sent buf buf' reads reads' true out none same = same _
  written-alike fuel n completed app sent buf buf' reads reads' false out none same = refl

  deliver-alike :
      (fuel n completed : ℕ) (app : S) (sent : List Output) (buf buf' : Bytes)
      (reads reads' : List ReadOutcome) (alive : Bool) (out : Option Bytes)
      → ((sent' : List Output)
          → serve setup fuel (at_buffer app (completed + 1) sent' (slide n buf) reads)
            ≡ serve setup fuel (at_buffer app (completed + 1) sent' (slide n buf') reads'))
      → onward fuel (deliver setup (at_buffer app completed sent buf reads) n alive out)
        ≡ onward fuel (deliver setup (at_buffer app completed sent buf' reads') n alive out)
  unfolding deliver
  deliver-alike fuel n completed app sent buf buf' reads reads' alive none same = refl
  deliver-alike fuel n completed app sent buf buf' reads reads' alive (some out) same =
      elim (Bool-cases (length out == 0)) [
        | inl nothing ↦ rw nothing refl
        | inr something ↦ rw something (
            written-alike fuel n completed app sent buf buf' reads reads' alive out
              (setup.falls_short completed) same)
      ]

  pub ready-alike :
      (fuel completed : ℕ) (app : S) (sent : List Output) (buf buf' : Bytes)
      (reads reads' : List ReadOutcome) (was was' : Bytes) (had had' : List ReadOutcome)
      (req : Request) (n : ℕ)
      → ((app' : S) (sent' : List Output)
          → serve setup fuel (at_buffer app' (completed + 1) sent' (slide n buf) reads)
            ≡ serve setup fuel (at_buffer app' (completed + 1) sent' (slide n buf') reads'))
      → onward fuel
          (answer_fill setup (at_buffer app completed sent was had) (ready req n buf reads))
        ≡ onward fuel
            (answer_fill setup (at_buffer app completed sent was' had') (ready req n buf' reads'))
  unfolding answer_fill
  ready-alike fuel completed app sent buf buf' reads reads' was was' had had' req n same =
      let alive = stay_alive req (completed + 1) setup.limits.keepalive_max_requests in
      let answered = answer setup req alive app in
      deliver-alike fuel n completed answered.0 sent buf buf' reads reads' alive answered.1
        (same answered.0)

  -- What is in the buffer and still to come is taken from what the filling loop ended with.
  pub answer_fill_rest :
      (completed : ℕ) (app : S) (sent : List Output) (buf buf' : Bytes)
      (reads reads' : List ReadOutcome) (f : Fill)
      → answer_fill setup (at_buffer app completed sent buf reads) f
        ≡ answer_fill setup (at_buffer app completed sent buf' reads') f
  unfolding answer_fill
  answer_fill_rest completed app sent buf buf' reads reads' (ready req n b r) = refl
  answer_fill_rest completed app sent buf buf' reads reads' (rejected kind) = refl
  answer_fill_rest completed app sent buf buf' reads reads' (gone reason) = refl

  pub round_full :
      (completed : ℕ) (app : S) (sent : List Output) (buf : Bytes) (reads : List ReadOutcome)
      (buf' : Bytes) (reads' : List ReadOutcome)
      → leb setup.limits.keepalive_max_requests completed ≡ true
      → round setup (at_buffer app completed sent buf reads)
        ≡ round setup (at_buffer app completed sent buf' reads')
  unfolding round
  round_full completed app sent buf reads buf' reads' full = rw full refl

  pub round_room :
      (st : Serving S) (f : Fill)
      → leb setup.limits.keepalive_max_requests st.completed ≡ false
      → fill setup.limits.http_limits st.reads st.readbuf ≡ f
      → round setup st ≡ answer_fill setup st f
  unfolding round
  round_room st f room e = rw (room, e) refl

  -- A round that has room and reads its request.
  pub serve_next :
      (fuel : ℕ) (st : Serving S) (f : Fill)
      → leb setup.limits.keepalive_max_requests st.completed ≡ false
      → fill setup.limits.http_limits st.reads st.readbuf ≡ f
      → serve setup (suc fuel) st ≡ onward fuel (answer_fill setup st f)
  unfolding serve
  serve_next fuel st f room e = ap (onward fuel) (round_room st f room e)

  -- A chunk that is read later might as well be in the buffer.
  pub serve-received :
      (fuel completed : ℕ) (app : S) (sent : List Output) (buf chunk : Bytes)
      (reads : List ReadOutcome)
      → serve setup fuel (at_buffer app completed sent buf (received chunk ∷ reads))
        ≡ serve setup fuel (at_buffer app completed sent (buf ++ chunk) reads)
  unfolding serve
  serve-received zero completed app sent buf chunk reads = refl
  serve-received (suc fuel) completed app sent buf chunk reads =
      let limits = setup.limits.http_limits in
      elim (Bool-cases (leb setup.limits.keepalive_max_requests completed)) [
        | inl full ↦
            ap (onward fuel)
              (round_full completed app sent buf (received chunk ∷ reads) (buf ++ chunk) reads full)
        | inr room ↦
            let earlier = λ (f : Fill) (e : fill limits (received chunk ∷ reads) buf ≡ f).
              serve_next fuel (at_buffer app completed sent buf (received chunk ∷ reads)) f room
                e in
            let later = λ (f : Fill) (e : fill limits reads (buf ++ chunk) ≡ f).
              serve_next fuel (at_buffer app completed sent (buf ++ chunk) reads) f room e in
            elim (parse-cases (parse limits buf)) [
              | inl (req, n, e) ↦
                  let again : parse limits (buf ++ chunk) ≡ parsed req n =
                    parse_stable limits buf chunk (λ h. absurd cc) ∙ e in
                  let inside : InBounds limits buf _ (parsed req n) =
                    subst (InBounds limits buf _) e (parse-InBounds limits buf) in
                  earlier _ (fill-parsed limits (received chunk ∷ reads) buf req n e)
                  ∙ ready-alike fuel completed app sent buf (buf ++ chunk) (received chunk ∷ reads)
                      reads buf (buf ++ chunk) (received chunk ∷ reads) reads req n
                      (λ app' sent'.
                        serve-received fuel (completed + 1) app' sent' (slide n buf) chunk reads
                        ∙ ap (λ b. serve setup fuel (at_buffer app' (completed + 1) sent' b reads))
                            (sym (slide-append n buf chunk inside.0)))
                  ∙ sym (later _ (fill-parsed limits reads (buf ++ chunk) req n again))
              | inr (inl e) ↦
                  earlier _ (fill-received limits reads buf chunk e)
                  ∙ ap (onward fuel) (
                      answer_fill_rest completed app sent buf (buf ++ chunk)
                        (received chunk ∷ reads) reads (fill limits reads (buf ++ chunk)))
                  ∙ sym (later _ refl)
              | inr (inr (kind, e)) ↦
                  let again : parse limits (buf ++ chunk) ≡ failed kind =
                    parse_stable limits buf chunk (λ h. absurd cc) ∙ e in
                  earlier _ (fill-failed limits (received chunk ∷ reads) buf kind e)
                  ∙ sym (later _ (fill-failed limits reads (buf ++ chunk) kind again))
            ]
      ]

  serve-arriving :
      (fuel completed : ℕ) (app : S) (sent : List Output) (buf : Bytes) (chunks : List Bytes)
      (later : List ReadOutcome)
      → serve setup fuel (at_buffer app completed sent buf (arriving chunks later))
        ≡ serve setup fuel (at_buffer app completed sent (buf ++ joined chunks) later)
  unfolding arriving joined
  serve-arriving fuel completed app sent buf [] later =
      ap (λ b. serve setup fuel (at_buffer app completed sent b later)) (sym (append-nil buf))
  serve-arriving fuel completed app sent buf (c ∷ cs) later =
      serve-received fuel completed app sent buf c (arriving cs later)
      ∙ serve-arriving fuel completed app sent (buf ++ c) cs later
      ∙ ap (λ b. serve setup fuel (at_buffer app completed sent b later))
          (append_assoc buf c (joined cs))

  -- The cuts between the reads are not seen: a connection on which the same bytes arrive in other
  -- chunks sends the same responses, leaves the application in the same state, counts the same requests
  -- and closes for the same reason.
  pub conn_handle-joined :
      (timeouts_set accepted : Bool) (app : S) (chunks others : List Bytes)
      (later : List ReadOutcome)
      → joined chunks ≡ joined others
      → conn_handle setup timeouts_set accepted app (arriving chunks later)
        ≡ conn_handle setup timeouts_set accepted app (arriving others later)
  unfolding conn_handle
  conn_handle-joined timeouts_set accepted app chunks others later same =
      let fuel = suc setup.limits.keepalive_max_requests in
      ap
        (λ r.
          if not timeouts_set || not accepted
          then some (record { app = app; completed = 0; sent = []; reason = closed_error })
          else r)
        (serve-arriving fuel 0 app [] [] chunks later
          ∙ ap (λ b. serve setup fuel (at_buffer app 0 [] b later)) same
          ∙ sym (serve-arriving fuel 0 app [] [] others later))
