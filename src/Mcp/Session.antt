-- ===== src/Mcp/Session.antt =====
-- A session over stdio: run_stdio of src/mcp/mod.rs. The session is what was called and written.
pub mod Safe
pub mod InOrder
pub mod Ends
use earl.Prelude.{ℕ, zero, suc, Option, none, some, List, [], ◌∷◌, ◌++◌, length, Result, ok, err}
use earl.Json.{Value}
use earl.Mcp.{McpState, JsonRpcRequest, JsonRpcResponse, RpcFailure, Outside, failure}
use earl.Mcp.Server.{Call, handle_request}
use earl.Mcp.Frames.{Bytes, FrameError, read_stdio_frame, write_stdio_frame}

-- serde_json on a request and on a response.
pub record Codec : Type 0 where
  pub from_slice : Bytes → Option JsonRpcRequest
  pub to_vec : JsonRpcResponse → Option Bytes

pub data SessionError : Type 0 where
  unreadable : FrameError → SessionError
  unwritable out_of_fuel : SessionError

pub record Session : Type 0 where
  pub calls : List Call
  pub written : Bytes
  pub result : Result SessionError (Unit {0})

abbrev pub ended : Result SessionError (Unit {0}) → Session
ended result = record { calls = []; written = []; result = result }

abbrev pub made_call : Option Call → List Call
made_call none = []
made_call (some call) = call ∷ []

-- What one frame called and wrote, in front of what follows it.
abbrev pub then_session : List Call × Result SessionError Bytes → Session → Session
then_session (calls, err e) more = record { calls = calls; written = []; result = err e }
then_session (calls, ok bytes) more = record {
  calls = calls ++ more.calls;
  written = bytes ++ more.written;
  result = more.result;
}

module _ (outside : Outside) (codec : Codec) (state : McpState) where
  unfoldable pub write_response : JsonRpcResponse → Result SessionError Bytes
  unfolding write_stdio_frame
  write_response response = elim (codec.to_vec response) [
    | none ↦ err SessionError.unwritable
    | some body ↦ ok (write_stdio_frame body)
  ]

  unfoldable pub write_answer : Option JsonRpcResponse → Result SessionError Bytes
  unfolding write_response
  write_answer none = ok []
  write_answer (some response) = write_response response

  -- The body of the loop.
  unfoldable pub answer_frame : Bytes → List Call × Result SessionError Bytes
  unfolding write_response write_answer handle_request failure
  answer_frame frame = elim (codec.from_slice frame) [
    | none ↦ ([], write_response (failure Value.null RpcFailure.parse_error))
    | some request ↦
        (let (call, response) = handle_request outside request state none in
          (made_call call, write_answer response))
  ]

  unfoldable pub run_from : ℕ → Bytes → Session
  unfolding read_stdio_frame answer_frame
  run_from zero reader = ended (err SessionError.out_of_fuel)
  run_from (suc fuel) reader = elim (read_stdio_frame reader) [
    | err e ↦ ended (err (SessionError.unreadable e))
    | ok (none, rest) ↦ ended (ok tt)
    | ok (some frame, rest) ↦ then_session (answer_frame frame) (run_from fuel rest)
  ]

  unfoldable pub run_stdio : Bytes → Session
  unfolding run_from
  run_stdio reader = run_from (suc (length reader)) reader
