-- ===== src/Http/Conn/Rounds.antt =====
-- What the connection loop of src/http/conn.c sends, how often, and how it ends.
pub mod Reasons
pub mod Ends
use platform_service.Common.{
  ℕ, zero, suc, ◌+◌, ◌*◌, ◌≤◌, ◌<◌, ◌≡◌, refl, sym, ap, ◌∙◌, ◌⊎◌, inl, inr, Bool, true, false, not,
  ◌||◌, Option, none, some, List, [], ◌∷◌, ◌++◌, arith, Bytes, leb, ◌==◌, Bool-cases, length, take,
  length-append,
}
use platform_service.Http.Conn.Chunks.{onward}
use platform_service.Http.Conn.Chunks.Filling.{parse-cases}
use platform_service.Http.Request.Types.{ParseError, Limits}
use platform_service.Http.Request.{parse}
use platform_service.Http.Conn.{
  fill, read_more, slide, written, deliver, answer, answer_fill, round, serve, conn_handle,
  stay_alive, error_status_and_code,
}
use platform_service.Http.Conn.Types.{
  ReadOutcome, received, timed_out, poll_failed, zero_return, broken, read_failed, More, filled,
  closed, CloseReason, closed_by_peer, closed_max_requests, closed_timeout, closed_error,
  closed_connection_header, Output, response, part, refusal, Fill, ready, rejected, gone, Setup,
  Serving, Served, ended, next, Round,
}
use platform_service.Http.Conn.Rounds.Ends.{AllArrive, most_bytes, serve_decided}
use platform_service.Http.Conn.Rounds.Reasons.{is_max_requests, fill-Waiting, Waiting}

unfoldable pub responses : List Bytes → List Output
responses [] = []
responses (t ∷ ts) = response t ∷ responses ts

-- Behind the responses stands nothing; or a part of one more, or one refusal, with which the
-- connection ends as in error.
unfoldable pub Closing : List Output → List Bytes → CloseReason → Type 0
unfolding responses
Closing sent outs reason =
    (sent ≡ responses outs)
    ⊎ ((out : Bytes) × (k : ℕ) × (sent ≡ responses outs ++ part (take k out) ∷ [])
        × (reason ≡ closed_error))
    ⊎ ((kind : ParseError) × (sent
          ≡ responses outs
            ++ refusal (error_status_and_code kind).0 (error_status_and_code kind).1 ∷ [])
        × (reason ≡ closed_error))

-- What holds of a connection that has ended.
pub record IsOrderly {S : Type 0} (most : ℕ) (served : Served S) : Type 0 where
  pub outs : List Bytes
  pub counted : length outs ≡ served.completed
  pub bounded : served.completed ≤ most
  pub at_most : is_max_requests served.reason ≡ (served.completed == most)
  pub closing : Closing served.sent outs served.reason

-- What holds between the rounds.
record IsServing {S : Type 0} (most : ℕ) (st : Serving S) : Type 0 where
  pub outs : List Bytes
  pub counted : length outs ≡ st.completed
  pub bounded : st.completed ≤ most
  pub shown : st.sent ≡ responses outs

abbrev RoundOrderly : {S : Type 0} → ℕ → ℕ → Round S → Type 0
RoundOrderly most completed (ended served) = IsOrderly most served
RoundOrderly most completed (next st) = IsServing most st × (st.completed ≡ completed + 1)

responses-append : (ts us : List Bytes) → responses (ts ++ us) ≡ responses ts ++ responses us
unfolding responses
responses-append [] us = refl
responses-append (t ∷ ts) us = ap (λ r. response t ∷ r) (responses-append ts us)

responses_none : [] ≡ responses []
unfolding responses
responses_none = refl

module _ {F S : Type 0} (setup : Setup F S) where
  -- The connection ends between the responses.
  stops :
      (st : Serving S) (reason : CloseReason)
      → IsServing setup.limits.keepalive_max_requests st
      → is_max_requests reason ≡ (st.completed == setup.limits.keepalive_max_requests)
      → IsOrderly setup.limits.keepalive_max_requests
          (record { app = st.app; completed = st.completed; sent = st.sent; reason = reason })
  unfolding Closing
  stops st reason inv h = record {
    outs = inv.outs;
    counted = inv.counted;
    bounded = inv.bounded;
    at_most = h;
    closing = inl inv.shown;
  }

  -- One more response is sent.
  after_response :
      (st : Serving S) (out : Bytes) (readbuf : Bytes)
      → IsServing setup.limits.keepalive_max_requests st
      → st.completed < setup.limits.keepalive_max_requests
      → IsServing setup.limits.keepalive_max_requests (record st {
        completed = st.completed + 1;
        readbuf = readbuf;
        sent = st.sent ++ response out ∷ [];
      })
  unfolding responses
  after_response st out readbuf inv room = record {
    outs = inv.outs ++ out ∷ [];
    counted = omega (arith, length-append inv.outs (out ∷ []), inv.counted);
    bounded = omega arith;
    shown = ap (λ o. o ++ response out ∷ []) inv.shown ∙ sym (responses-append inv.outs (out ∷ []));
  }

  written-Orderly :
      (st : Serving S) (n : ℕ) (alive : Bool) (out : Bytes) (short : Option ℕ)
      → IsServing setup.limits.keepalive_max_requests st
      → st.completed < setup.limits.keepalive_max_requests
      → RoundOrderly setup.limits.keepalive_max_requests st.completed
          (written setup st n alive out short)
  unfolding written is_max_requests Closing
  written-Orderly st n alive out (some k) inv room = record {
    outs = inv.outs;
    counted = inv.counted;
    bounded = inv.bounded;
    at_most = ground arith;
    closing = inr (inl (out, k, ap (λ o. o ++ part (take k out) ∷ []) inv.shown, refl));
  }
  written-Orderly st n true out none inv room =
      (after_response st out (slide n st.readbuf) inv room, refl)
  written-Orderly st n false out none inv room =
      stops
        (record st {
          completed = st.completed + 1;
          readbuf = st.readbuf;
          sent = st.sent ++ response out ∷ [];
        })
        _ (after_response st out st.readbuf inv room) (ground arith)

  deliver-Orderly :
      (st : Serving S) (n : ℕ) (alive : Bool) (out : Option Bytes)
      → IsServing setup.limits.keepalive_max_requests st
      → st.completed < setup.limits.keepalive_max_requests
      → RoundOrderly setup.limits.keepalive_max_requests st.completed (deliver setup st n alive out)
  unfolding deliver is_max_requests
  deliver-Orderly st n alive none inv room = stops st closed_error inv (ground arith)
  deliver-Orderly st n alive (some out) inv room = elim (Bool-cases (length out == 0)) [
    | inl nothing ↦ rw nothing (stops st closed_error inv (ground arith))
    | inr something ↦
        rw something (written-Orderly st n alive out (setup.falls_short st.completed) inv room)
  ]

  answer_fill-Orderly :
      (st : Serving S) (f : Fill)
      → IsServing setup.limits.keepalive_max_requests st
      → st.completed < setup.limits.keepalive_max_requests
      → Waiting f
      → RoundOrderly setup.limits.keepalive_max_requests st.completed (answer_fill setup st f)
  unfolding answer_fill is_max_requests Closing
  answer_fill-Orderly st (ready req n buf reads) inv room w =
      let alive = stay_alive req (st.completed + 1) setup.limits.keepalive_max_requests in
      let answered = answer setup req alive st.app in
      deliver-Orderly (record st { app = answered.0; readbuf = buf; reads = reads }) n alive
        answered.1
        (record {
          outs = inv.outs;
          counted = inv.counted;
          bounded = inv.bounded;
          shown = inv.shown;
        })
        room
  answer_fill-Orderly st (rejected kind) inv room w = record {
    outs = inv.outs;
    counted = inv.counted;
    bounded = inv.bounded;
    at_most = ground arith;
    closing = inr (
        inr (
          kind,
          ap (λ o. o ++ refusal (error_status_and_code kind).0 (error_status_and_code kind).1 ∷ [])
              inv.shown,
          refl,
        ));
  }
  answer_fill-Orderly st (gone reason) inv room w = stops st reason inv (w ∙ ground arith)

  round-Orderly :
      (st : Serving S)
      → IsServing setup.limits.keepalive_max_requests st
      → RoundOrderly setup.limits.keepalive_max_requests st.completed (round setup st)
  unfolding round is_max_requests
  round-Orderly st inv = elim (Bool-cases (leb setup.limits.keepalive_max_requests st.completed)) [
    | inl full ↦ rw full (stops st closed_max_requests inv (ground arith))
    | inr room ↦ rw room (answer_fill-Orderly st _ inv (ground arith) (fill-Waiting _ _ _))
  ]

  -- Enough fuel: a round for each request that is left, and one more.
  serve-Orderly :
      (fuel : ℕ) (st : Serving S)
      → IsServing setup.limits.keepalive_max_requests st
      → setup.limits.keepalive_max_requests < fuel + st.completed
      → (served : Served S) × (serve setup fuel st ≡ some served)
        × IsOrderly setup.limits.keepalive_max_requests served
  unfolding serve
  serve-Orderly zero st inv enough = absurd (omega (arith, inv.bounded))
  serve-Orderly (suc fuel) st inv enough =
      goes_on (round setup st) (round-Orderly st inv)
        (λ st' inv' more. serve-Orderly fuel st' inv' more)
    where
      goes_on :
          (r : Round S)
          → RoundOrderly setup.limits.keepalive_max_requests st.completed r
          → ((st' : Serving S)
              → IsServing setup.limits.keepalive_max_requests st'
              → setup.limits.keepalive_max_requests < fuel + st'.completed
              → (served : Served S) × (serve setup fuel st' ≡ some served)
                × IsOrderly setup.limits.keepalive_max_requests served)
          → (served : Served S) × (onward setup fuel r ≡ some served)
            × IsOrderly setup.limits.keepalive_max_requests served
      goes_on (ended served) good later = (served, refl, good)
      goes_on (next st') (inv', more) later = later st' inv' (omega arith)

  -- Given as many outcomes as `keepalive_max_requests` times `most_bytes`, of which each read that
  -- returns bytes returns one at least, a connection whose handshake is made ends by these: any
  -- outcomes behind them give the same end. By then it has sent as many whole responses as it reports,
  -- at most `keepalive_max_requests`. Behind them it has sent nothing, or a part of one response that
  -- `SSL_write` did not take whole, or one error response to bytes that are no request; with either of
  -- these it closes as in error. It reports that the number of requests was reached exactly when it
  -- was.
  pub conn_handle-Orderly :
      (app : S) (reads later later' : List ReadOutcome)
      → AllArrive reads
      → setup.limits.keepalive_max_requests * most_bytes setup.limits.http_limits ≤ length reads
      → (served : Served S) × (conn_handle setup true true app (reads ++ later) ≡ some served)
        × (conn_handle setup true true app (reads ++ later') ≡ some served)
        × IsOrderly setup.limits.keepalive_max_requests served
  unfolding conn_handle
  conn_handle-Orderly app reads later later' arrive enough =
      let most = setup.limits.keepalive_max_requests in
      let (served, ends, orderly) =
        serve-Orderly (suc most)
          (record { app = app; completed = 0; readbuf = []; reads = reads ++ later; sent = [] })
          (record { outs = []; counted = refl; bounded = omega arith; shown = responses_none })
          (omega arith) in
      (
        served,
        ends,
        serve_decided setup (suc most) 0 most app [] [] reads later' later arrive (omega arith)
              enough
            ∙ ends,
        orderly,
      )
