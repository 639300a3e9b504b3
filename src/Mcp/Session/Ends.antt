-- ===== src/Mcp/Session/Ends.antt =====
-- A session over stdio ends: run_stdio of src/mcp/mod.rs.
use earl.Prelude.{
  ℕ, zero, suc, ◌≤◌, ◌<◌, ◌≡◌, subst, Option, none, some, Option-cases, List, [], length, Result,
  ok, err, Result-cases, inl, inr, arith,
}
use earl.Json.{Value}
use earl.Mcp.{McpState, Outside, JsonRpcResponse, RpcFailure, failure}
use earl.Mcp.Server.{Call, handle_request}
use earl.Mcp.Frames.{Bytes, FrameError, read_stdio_frame}
use earl.Mcp.Session.{
  Codec, Session, SessionError, then_session, answer_frame, made_call, write_response, write_answer,
  run_from, run_stdio,
}
use earl.Mcp.Frames.Lengths.{Within, weight, read_stdio_frame-Within}

abbrev Ended : Result SessionError (Unit {0}) → Type 0
Ended (ok u) = Unit
Ended (err (SessionError.unreadable FrameError.out_of_fuel)) = ⊥
Ended (err (SessionError.unreadable e)) = Unit
Ended (err SessionError.unwritable) = Unit
Ended (err SessionError.out_of_fuel) = ⊥

abbrev Writes : Result SessionError Bytes → Type 0
Writes (ok written) = Unit
Writes (err SessionError.unwritable) = Unit
Writes (err e) = ⊥

then_session-Ended :
    (calls : List Call) (r : Result SessionError Bytes) (more : Session)
    → Writes r
    → Ended more.result
    → Ended (then_session (calls, r) more).result
then_session-Ended calls (ok written) more w h = h
then_session-Ended calls (err SessionError.unwritable) more w h = tt
then_session-Ended calls (err SessionError.out_of_fuel) more w h = w
then_session-Ended calls (err (SessionError.unreadable e)) more w h = absurd w

unreadable-Ended :
    (n : ℕ) (e : FrameError) → Within weight n (err e) → Ended (err (SessionError.unreadable e))
unreadable-Ended n FrameError.invalid_utf8 h = tt
unreadable-Ended n FrameError.frame_too_large h = tt
unreadable-Ended n FrameError.eof_in_headers h = tt
unreadable-Ended n FrameError.eof_in_body h = tt
unreadable-Ended n FrameError.invalid_content_length h = tt
unreadable-Ended n FrameError.out_of_fuel h = h

module _ (outside : Outside) (codec : Codec) (state : McpState) where
  write_response-Writes :
      (response : JsonRpcResponse) → Writes (write_response outside codec state response)
  unfolding write_response
  write_response-Writes response = elim (Option-cases (codec.to_vec response)) [
    | inl e ↦ rw (e, write_response) tt
    | inr (body, e) ↦ rw (e, write_response) tt
  ]

  write_answer-Writes :
      (response : Option JsonRpcResponse) → Writes (write_answer outside codec state response)
  unfolding write_answer
  write_answer-Writes none = tt
  write_answer-Writes (some response) = write_response-Writes response

  answer_frame-Ended :
      (frame : Bytes) (more : Session)
      → Ended more.result
      → Ended (then_session (answer_frame outside codec state frame) more).result
  unfolding answer_frame
  answer_frame-Ended frame more h = elim (Option-cases (codec.from_slice frame)) [
    | inl e ↦
        rw (e, answer_frame)
          (then_session-Ended [] _ more
            (write_response-Writes (failure Value.null RpcFailure.parse_error)) h)
    | inr (request, e) ↦
        (let (call, response) = handle_request outside request state none in
          rw (e, answer_frame)
            (then_session-Ended (made_call call) _ more (write_answer-Writes response) h))
  ]

  run_from-Ended :
      (fuel : ℕ) (reader : Bytes)
      → length reader < fuel
      → Ended (run_from outside codec state fuel reader).result
  unfolding run_from
  run_from-Ended zero reader h = absurd (omega arith)
  run_from-Ended (suc fuel) reader h = elim (Result-cases (read_stdio_frame reader)) [
    | inr (e, k) ↦
        rw (k, run_from)
          (unreadable-Ended (length reader) e
            (subst (Within weight (length reader)) k (read_stdio_frame-Within reader)))
    | inl ((none, rest), k) ↦ rw (k, run_from) tt
    | inl ((some frame, rest), k) ↦
        (let shorter : suc (length rest) ≤ length reader =
            subst (Within weight (length reader)) k (read_stdio_frame-Within reader) in
          rw (k, run_from)
            (answer_frame-Ended frame (run_from outside codec state fuel rest)
              (run_from-Ended fuel rest (omega arith))))
  ]

  -- A session over stdio ends, whatever bytes come: its loops have fuel enough.
  pub run_stdio-ends :
      (reader : Bytes)
      → ¬ ((run_stdio outside codec state reader).result ≡ err SessionError.out_of_fuel)
        × ¬ (
            (run_stdio outside codec state reader).result
            ≡ err (SessionError.unreadable FrameError.out_of_fuel))
  unfolding run_stdio
  run_stdio-ends reader =
      let h = run_from-Ended (suc (length reader)) reader (omega arith) in
      (λ e. subst Ended e h, λ e. subst Ended e h)
