-- ===== src/Mcp/Session/Safe.antt =====
-- The calls of a session over stdio pass the gates: run_stdio of src/mcp/mod.rs.
use earl.Prelude.{
  ℕ, zero, suc, ◌≡◌, refl, Option, none, some, Option-cases, List, length, Result, ok, err,
  Result-cases, inl, inr, All, All-append,
}
use earl.Mcp.{McpState, Outside}
use earl.Mcp.Server.{Call, handle_request}
use earl.Mcp.Gate.{IsGated, handle_request-IsGated}
use earl.Mcp.Frames.{Bytes, read_stdio_frame}
use earl.Mcp.Session.{
  Codec, SessionError, Session, then_session, made_call, answer_frame, run_from, run_stdio,
}

module _ (outside : Outside) (codec : Codec) (state : McpState) where
  made_call-Gated :
      (call : Option Call)
      → ((c : Call) → call ≡ some c → IsGated state none c)
      → All (IsGated state none) (made_call call)
  made_call-Gated none h = tt
  made_call-Gated (some call) h = (h call refl, tt)

  answer_frame-Gated :
      (frame : Bytes) → All (IsGated state none) (answer_frame outside codec state frame).0
  unfolding answer_frame
  answer_frame-Gated frame = elim (Option-cases (codec.from_slice frame)) [
    | inl bad ↦ rw (bad, answer_frame) tt
    | inr (request, e) ↦
        rw (e, answer_frame)
          (made_call-Gated (handle_request outside request state none).0
            (handle_request-IsGated outside state none request))
  ]

  then_session-Gated :
      (answer : List Call × Result SessionError Bytes) (more : Session)
      → All (IsGated state none) answer.0
      → All (IsGated state none) more.calls
      → All (IsGated state none) (then_session answer more).calls
  then_session-Gated (calls, err e) more h k = h
  then_session-Gated (calls, ok written) more h k =
      All-append (IsGated state none) calls more.calls h k

  run_from-Gated :
      (fuel : ℕ) (reader : Bytes)
      → All (IsGated state none) (run_from outside codec state fuel reader).calls
  unfolding run_from
  run_from-Gated zero reader = tt
  run_from-Gated (suc fuel) reader = elim (Result-cases (read_stdio_frame reader)) [
    | inr (e, h) ↦ rw (h, run_from) tt
    | inl ((none, rest), h) ↦ rw (h, run_from) tt
    | inl ((some frame, rest), h) ↦
        rw (h, run_from)
          (then_session-Gated (answer_frame outside codec state frame) _ (answer_frame-Gated frame)
            (run_from-Gated fuel rest))
  ]

  -- Whatever bytes come over stdio, each call of a template in the session has passed the gates: its
  -- entry stands in the catalog, it reads only or the server runs with --yes, and its arguments are
  -- bound to its parameters.
  pub run_stdio-AllGated :
      (reader : Bytes) → All (IsGated state none) (run_stdio outside codec state reader).calls
  unfolding run_stdio
  run_stdio-AllGated reader = run_from-Gated (suc (length reader)) reader
