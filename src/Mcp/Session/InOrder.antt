-- ===== src/Mcp/Session/InOrder.antt =====
-- A session over frames answers them one after the other: run_stdio of src/mcp/mod.rs.
use earl.Prelude.{
  ℕ, zero, suc, ◌≤◌, ◌<◌, ◌≡◌, refl, ap, ◌∙◌, some, List, [], ◌∷◌, ◌++◌, length, ok, All, arith,
}
use earl.Mcp.{McpState, Outside}
use earl.Mcp.Frames.{Bytes, max_frame_size, read_stdio_frame, write_stdio_frame}
use earl.Mcp.Frames.RoundTrip.{read_stdio_frame-write, length-write}
use earl.Mcp.Session.{Codec, Session, ended, then_session, answer_frame, run_from, run_stdio}

-- The bytes of a client that writes frames.
unfoldable pub frames : List Bytes → Bytes
unfolding write_stdio_frame
frames [] = []
frames (body ∷ bodies) = write_stdio_frame body ++ frames bodies

length-frames : (bodies : List Bytes) → length bodies ≤ length (frames bodies)
unfolding frames
length-frames [] = omega arith
length-frames (body ∷ bodies) =
    omega (arith, length-write body (frames bodies), length-frames bodies)

module _ (outside : Outside) (codec : Codec) (state : McpState) where
  -- The answers of the frames, one after the other, up to the first that is not written.
  unfoldable pub answers : List Bytes → Session
  unfolding answer_frame
  answers [] = ended (ok tt)
  answers (body ∷ bodies) = then_session (answer_frame outside codec state body) (answers bodies)

  run_from-frame :
      (fuel : ℕ) (reader body rest : Bytes)
      → read_stdio_frame reader ≡ ok (some body, rest)
      → run_from outside codec state (suc fuel) reader
        ≡ then_session
            (answer_frame outside codec state body)
            (run_from outside codec state fuel rest)
  unfolding run_from
  run_from-frame fuel reader body rest h = rw (h, run_from)

  run_from-frames :
      (fuel : ℕ) (bodies : List Bytes)
      → length bodies < fuel
      → All (λ body. length body ≤ max_frame_size) bodies
      → run_from outside codec state fuel (frames bodies) ≡ answers bodies
  unfolding run_from answers frames
  run_from-frames zero bodies h small = absurd (omega arith)
  run_from-frames (suc fuel) [] h small = refl
  run_from-frames (suc fuel) (body ∷ bodies) h (fits, small) =
      run_from-frame fuel (frames (body ∷ bodies)) body (frames bodies)
        (read_stdio_frame-write body (frames bodies) fits)
      ∙ ap (then_session (answer_frame outside codec state body))
          (run_from-frames fuel bodies (omega arith) small)

  -- A session over frames of at most 10 MiB answers them one after the other, and ends behind the last
  -- frame or where a response cannot be written.
  pub run_stdio-frames :
      (bodies : List Bytes)
      → All (λ body. length body ≤ max_frame_size) bodies
      → run_stdio outside codec state (frames bodies) ≡ answers bodies
  unfolding run_stdio
  run_stdio-frames bodies small =
      run_from-frames (suc (length (frames bodies))) bodies (omega (arith, length-frames bodies))
        small
