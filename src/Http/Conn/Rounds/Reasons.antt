-- ===== src/Http/Conn/Rounds/Reasons.antt =====
-- The filling loop of src/http/conn.c does not end by the number of the requests.
use platform_service.Common.{
  ◌≡◌, refl, inl, inr, Bool, true, false, List, [], ◌∷◌, Bytes, ◌==◌, Bool-cases, length,
}
use platform_service.Http.Conn.Chunks.Filling.{parse-cases}
use platform_service.Http.Request.Types.{Limits}
use platform_service.Http.Request.{parse}
use platform_service.Http.Conn.{fill, read_more}
use platform_service.Http.Conn.Types.{
  ReadOutcome, received, timed_out, poll_failed, zero_return, broken, read_failed, More, filled,
  closed, CloseReason, closed_by_peer, closed_max_requests, closed_timeout, closed_error,
  closed_connection_header, Fill, ready, rejected, gone,
}

unfoldable pub is_max_requests : CloseReason → Bool
is_max_requests closed_max_requests = true
is_max_requests closed_by_peer = false
is_max_requests closed_timeout = false
is_max_requests closed_error = false
is_max_requests closed_connection_header = false

-- The end of the filling loop is not the end by the number of the requests.
abbrev pub Waiting : Fill → Type 0
Waiting (ready req n buf reads) = Unit {0}
Waiting (rejected kind) = Unit {0}
Waiting (gone reason) = is_max_requests reason ≡ false

abbrev MoreWaiting : More → Type 0
MoreWaiting (filled buf) = Unit {0}
MoreWaiting (closed reason) = is_max_requests reason ≡ false

read_more-Waiting : (r : ReadOutcome) (buf : Bytes) → MoreWaiting (read_more r buf)
unfolding read_more is_max_requests
read_more-Waiting timed_out buf = refl
read_more-Waiting poll_failed buf = refl
read_more-Waiting (received chunk) buf = tt
read_more-Waiting zero_return buf = refl
read_more-Waiting broken buf = elim (Bool-cases (length buf == 0)) [
  | inl e ↦ rw e refl
  | inr e ↦ rw e refl
]
read_more-Waiting read_failed buf = refl

read_on-Waiting :
    (limits : Limits) (rs : List ReadOutcome) (m : More)
    → MoreWaiting m
    → ((buf : Bytes) → Waiting (fill limits rs buf))
    → Waiting (elim m [ filled buf ↦ fill limits rs buf | closed reason ↦ gone reason ])
read_on-Waiting limits rs (filled buf) h later = later buf
read_on-Waiting limits rs (closed reason) h later = h

pub fill-Waiting :
    (limits : Limits) (reads : List ReadOutcome) (buf : Bytes) → Waiting (fill limits reads buf)
unfolding fill is_max_requests
fill-Waiting limits [] buf = elim (parse-cases (parse limits buf)) [
  | inl (req, n, e) ↦ rw (e, fill) tt
  | inr (inl e) ↦ rw (e, fill) refl
  | inr (inr (kind, e)) ↦ rw (e, fill) tt
]
fill-Waiting limits (r ∷ rs) buf = elim (parse-cases (parse limits buf)) [
  | inl (req, n, e) ↦ rw (e, fill) tt
  | inr (inl e) ↦
      rw (e, fill)
        (read_on-Waiting limits rs (read_more r buf) (read_more-Waiting r buf)
          (fill-Waiting limits rs))
  | inr (inr (kind, e)) ↦ rw (e, fill) tt
]
